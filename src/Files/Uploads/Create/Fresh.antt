-- ===== src/Files/Uploads/Create/Fresh.antt =====
-- internal/files/uploads.go: what HandleTusCreate leaves behind when it answers 201.
use yesnas_server.Prelude.{
  ℕ, take, String, Bool, true, false, some, List, [], ◌≡◌, refl, ap, sym, ◌∙◌, not, str_eq,
  if◌then◌else◌, inl, inr, arith, Bool-cases,
}
use mathlib.Core.Path.{subst}
use yesnas_server.Prelude.Result.{ok, err, Result-cases, ok-injective}
use yesnas_server.Prelude.Text.{trim_space, is_empty}
use yesnas_server.Prelude.FilePath.{base}
use yesnas_server.Files.Uploads.{
  Upload, Server, Store, at, with_file, tus_temp_file_path, tus_meta_file_path,
}
use yesnas_server.Files.Uploads.Bytes.{at-with_file}
use yesnas_server.Files.Uploads.Parsing.{
  parse_upload_length, parse_tus_metadata, build_tus_upload_meta, value_of, file_name_of,
  new_upload,
}
use yesnas_server.Files.Uploads.Finalize.{resolve_upload_storage}
use yesnas_server.Files.Uploads.Handlers.{
  Disk, saved, Saved-cases, created, opened, save_tus_upload_meta, validate_tus_request,
}
use yesnas_server.Files.Uploads.Create.{
  Creation, read_creation, begin_upload, handle_tus_create, storage_upload_root_path,
}
use yesnas_server.Files.Uploads.Log.{HasReceived}

three_guards :
    (a b c : Bool) (v w : Upload) (x y z : String)
    → (if a then err x else if not b then err y else if c then err z else ok v) ≡ ok w
    → v ≡ w
three_guards true b c v w x y z e = absurd (ground (arith, e))
three_guards false false c v w x y z e = absurd (ground (arith, e))
three_guards false true true v w x y z e = absurd (ground (arith, e))
three_guards false true false v w x y z e = ok-injective v w e

-- The record of an upload that has received nothing.
unfoldable pub IsFresh : String → ℕ → Upload → Type 0
IsFresh id length meta = (meta.id ≡ id) × (meta.offset ≡ 0) × (meta.upload_length ≡ length)

build_tus_upload_meta-IsFresh :
    (id : String) (now length : ℕ) (raw : List (String × String)) (meta : Upload)
    → build_tus_upload_meta id now length raw ≡ ok meta
    → IsFresh id length meta
unfolding build_tus_upload_meta IsFresh new_upload
build_tus_upload_meta-IsFresh id now length raw meta e =
    subst (IsFresh id length)
      (three_guards (is_empty (file_name_of raw))
        (str_eq (file_name_of raw) (base (file_name_of raw)))
        (is_empty (trim_space (value_of "storagePoolId" raw))) (new_upload id now length raw) meta
        "file name is required" "invalid file name" "storagePoolId is required" e)
      (refl, refl, refl)

-- What the headers say of the upload.
unfoldable pub IsRead : Creation → Upload → Type 0
IsRead r meta =
    (length : ℕ) × (parse_upload_length r.upload_length ≡ ok length) × IsFresh r.id length meta

read_creation-good :
    (sv : Server) (r : Creation) (length : ℕ) (raw : List (String × String))
    → parse_upload_length r.upload_length ≡ ok length
    → parse_tus_metadata sv r.upload_metadata ≡ ok raw
    → build_tus_upload_meta r.id r.now length raw ≡ read_creation sv r
unfolding read_creation
read_creation-good sv r length raw good read = rw (read_creation, good, read) refl

read_creation-IsRead :
    (sv : Server) (r : Creation) (meta : Upload) → read_creation sv r ≡ ok meta → IsRead r meta
unfolding read_creation IsRead
read_creation-IsRead sv r meta e = elim (Result-cases (parse_upload_length r.upload_length)) [
  | inl (m, bad) ↦ absurd (ground (arith, bad, e))
  | inr (length, good) ↦ elim (Result-cases (parse_tus_metadata sv r.upload_metadata)) [
    | inl (m, bad) ↦ absurd (ground (arith, good, bad, e))
    | inr (raw, read) ↦ (
      length,
      good,
      build_tus_upload_meta-IsFresh r.id r.now length raw meta
          (read_creation-good sv r length raw good read ∙ e),
    )
  ]
]

unfoldable begun_store : Server → Upload → Store → Store
unfolding tus_temp_file_path tus_meta_file_path
begun_store sv meta st = record st {
  temps = with_file (tus_temp_file_path meta) [] st.temps;
  metas = with_file (tus_meta_file_path sv meta.id) (some meta) st.metas;
}

begin_upload-begun :
    (sv : Server) (disk : Disk) (meta : Upload) (st : Store)
    → disk.makes_meta_root ≡ true
    → disk.makes_temp_root ≡ true
    → disk.opens ≡ true
    → disk.saves ≡ saved
    → begin_upload sv disk meta st ≡ (created meta.id, begun_store sv meta st)
unfolding begin_upload begun_store save_tus_upload_meta
begin_upload-begun sv disk meta st root dir open_ good = rw (root, dir, open_, good) refl

begun_store-HasReceived :
    (sv : Server) (meta : Upload) (st : Store)
    → meta.offset ≡ 0
    → HasReceived sv (begun_store sv meta st) meta []
unfolding begun_store HasReceived
begun_store-HasReceived sv meta st zero_offset = (
  at-with_file (tus_meta_file_path sv meta.id) (some meta) st.metas,
  zero_offset,
  omega (arith, zero_offset),
  subst (λ n. take n (opened (at (tus_temp_file_path meta) (begun_store sv meta st).temps)) ≡ [])
      (sym zero_offset) refl,
)

begin_upload-HasReceived :
    (sv : Server) (disk : Disk) (meta : Upload) (st : Store) (id : String)
    → (begin_upload sv disk meta st).0 ≡ created id
    → meta.offset ≡ 0
    → (id ≡ meta.id) × HasReceived sv (begin_upload sv disk meta st).1 meta []
unfolding begin_upload HasReceived save_tus_upload_meta
begin_upload-HasReceived sv disk meta st id e zero_offset = elim (Bool-cases disk.makes_meta_root) [
  | inr no_root ↦ absurd (ground (arith, no_root, e))
  | inl root ↦ elim (Bool-cases disk.makes_temp_root) [
    | inr no_dir ↦ absurd (ground (arith, root, no_dir, e))
    | inl dir ↦ elim (Bool-cases disk.opens) [
      | inr shut ↦ absurd (ground (arith, root, dir, shut, e))
      | inl open_ ↦ elim (Saved-cases disk.saves) [
        | inr (inl bad) ↦ absurd (ground (arith, root, dir, open_, bad, e))
        | inr (inr bad) ↦ absurd (ground (arith, root, dir, open_, bad, e))
        | inl good ↦
            let run = begin_upload-begun sv disk meta st root dir open_ good in
            (
              ground (arith, e, run),
              subst (λ a. HasReceived sv a.1 meta []) (sym run)
                  (begun_store-HasReceived sv meta st zero_offset),
            )
      ]
    ]
  ]
]

with_dir-IsRead :
    (r : Creation) (meta : Upload) (dir : String)
    → IsRead r meta
    → IsRead r (record meta { temp_dir = dir })
unfolding IsRead IsFresh
with_dir-IsRead r meta dir read = read

-- When HandleTusCreate answers that it created an upload, the upload has the identifier that was
-- drawn and the declared length of the header, and it is stored as one that has received no byte.
pub handle_tus_create-HasReceived :
    (sv : Server) (disk : Disk) (r : Creation) (st : Store) (id : String)
    → (handle_tus_create sv disk r st).0 ≡ created id
    → (meta : Upload) × (id ≡ meta.id)
      × IsRead r meta
      × HasReceived sv (handle_tus_create sv disk r st).1 meta []
unfolding handle_tus_create IsRead IsFresh
handle_tus_create-HasReceived sv disk r st id e =
    elim (Bool-cases (validate_tus_request r.resumable)) [
      | inr bad ↦ absurd (ground (arith, bad, e))
      | inl good ↦ elim (Result-cases (read_creation sv r)) [
        | inl (m, bad) ↦ absurd (ground (arith, good, bad, e))
        | inr (meta, read) ↦ elim (Result-cases (resolve_upload_storage sv meta.storage_pool_id)) [
          | inl (m, bad) ↦ absurd (ground (arith, good, read, bad, e))
          | inr (storage, known) ↦
              let placed = record meta { temp_dir = storage_upload_root_path sv storage } in
              let is_read = read_creation-IsRead sv r meta read in
              let run : handle_tus_create sv disk r st ≡ begin_upload sv disk placed st =
                rw (handle_tus_create, good, read, known) refl in
              let (same, has) =
                begin_upload-HasReceived sv disk placed st id (sym (ap (λ a. a.0) run) ∙ e)
                  is_read.2.1 in
              (
                placed,
                same,
                with_dir-IsRead r meta placed.temp_dir is_read,
                subst (λ a. HasReceived sv a.1 placed []) (sym run) has,
              )
        ]
      ]
    ]
