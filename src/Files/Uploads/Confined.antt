-- ===== src/Files/Uploads/Confined.antt =====
-- internal/files/uploads.go: where a complete upload is delivered.
use yesnas_server.Prelude.{
  String, Bool, true, false, ◌≡◌, refl, ap, sym, ◌∙◌, not, ◌⊎◌, inl, inr, arith, if◌then◌else◌,
  str_eq, ◌||◌,
}
use mathlib.Core.Path.{subst}
use yesnas_server.Prelude.Result.{ok, err, ◌>>=◌, ◌>>◌, check, bind-ok, check-ok, ok-injective}
use yesnas_server.Prelude.Text.{trim_space, is_empty}
use yesnas_server.Prelude.FilePath.{clean, join, is_abs}
use yesnas_server.Prelude.FilePath.Rel.{IsBelow}
use yesnas_server.Files.Disk.{
  Storage, StorageType, cloud, local, smb, ftp, webdav, nfs, s3, google, dropbox,
}
use yesnas_server.Files.Paths.{is_path_within_root, is_path_within_root-IsBelow}
use yesnas_server.Files.Uploads.{Upload, Server}
use yesnas_server.Files.Uploads.Finalize.{
  resolve_upload_storage, build_tus_target_path, Delivery, target_path, parent_of_upload,
  delivery_to, plan_finalize,
}

target_guards :
    (plain bad within within' : Bool) (below beside found : String) (a b c : String)
    → (if not plain
        then if bad then err a else if not within then err b else ok below
        else if not within'
        then err c
        else ok beside)
      ≡ ok found
    → ((below ≡ found) × (within ≡ true)) ⊎ ((beside ≡ found) × (within' ≡ true))
target_guards false true within within' below beside found a b c e = absurd (ground (arith, e))
target_guards false false true within' below beside found a b c e = inl (ground (arith, e), refl)
target_guards false false false within' below beside found a b c e = absurd (ground (arith, e))
target_guards true bad within true below beside found a b c e = inr (ground (arith, e), refl)
target_guards true bad within false below beside found a b c e = absurd (ground (arith, e))

build_tus_target_path-within :
    (root parent : String) (meta : Upload) (found : String)
    → build_tus_target_path root parent meta ≡ ok found
    → is_path_within_root root found ≡ true
unfolding build_tus_target_path
build_tus_target_path-within root parent meta found e =
    let below = clean (trim_space meta.relative_path) in
    elim (target_guards (is_empty (trim_space meta.relative_path))
      (str_eq below "." || str_eq below "" || is_abs below)
      (is_path_within_root root (join parent below))
      (is_path_within_root root (join parent meta.file_name)) (join parent below)
      (join parent meta.file_name) found "invalid relativePath" "relativePath escapes storage root"
      "target path invalid" e) [
        | inl (same, within) ↦ subst (λ t. is_path_within_root root t ≡ true) same within
        | inr (same, within) ↦ subst (λ t. is_path_within_root root t ≡ true) same within
      ]

delivery_to-target :
    (type : StorageType) (meta : Upload) (target : String)
    → target_path (delivery_to type meta target) ≡ target
unfolding delivery_to
delivery_to-target cloud meta target = refl
delivery_to-target local meta target = refl
delivery_to-target smb meta target = refl
delivery_to-target ftp meta target = refl
delivery_to-target webdav meta target = refl
delivery_to-target nfs meta target = refl
delivery_to-target s3 meta target = refl
delivery_to-target google meta target = refl
delivery_to-target dropbox meta target = refl

-- The target that finalizeTusUpload computes for an upload, on disk or in the cloud, lies at or
-- below the root of the storage that it finds for the upload, whatever names, parent and relative
-- path the client sent, when the storage is mounted at an absolute path.
pub plan_finalize-IsBelow :
    (sv : Server) (meta : Upload) (storage : Storage) (delivery : Delivery)
    → resolve_upload_storage sv meta.storage_pool_id ≡ ok storage
    → is_abs storage.mount_path ≡ true
    → plan_finalize sv meta ≡ ok delivery
    → IsBelow storage.mount_path (target_path delivery)
unfolding plan_finalize
plan_finalize-IsBelow sv meta storage delivery known abs e =
    let root = storage.mount_path in
    let e1 =
      subst
        (λ o.
          (o >>= λ st.
          (parent_of_upload sv st meta >>= λ parent.
          (check (is_path_within_root st.mount_path parent) "parent path out of storage root"
            >> (build_tus_target_path st.mount_path parent meta >>= λ target.
                ok (delivery_to st.type meta target)))))
          ≡ ok delivery)
        known e in
    let (parent, is_parent, e2) =
      bind-ok (parent_of_upload sv storage meta)
        (λ parent.
          check (is_path_within_root root parent) "parent path out of storage root"
          >> (build_tus_target_path root parent meta >>= λ target.
              ok (delivery_to storage.type meta target)))
        delivery e1 in
    let e3 =
      check-ok (is_path_within_root root parent) "parent path out of storage root"
        (build_tus_target_path root parent meta >>= λ target.
          ok (delivery_to storage.type meta target))
        delivery e2 in
    let (target, is_target, e4) =
      bind-ok (build_tus_target_path root parent meta)
        (λ target. ok (delivery_to storage.type meta target)) delivery e3 in
    subst (IsBelow root)
      (sym (delivery_to-target storage.type meta target)
        ∙ ap target_path (ok-injective (delivery_to storage.type meta target) delivery e4))
      (is_path_within_root-IsBelow root target abs
        (build_tus_target_path-within root parent meta target is_target))
