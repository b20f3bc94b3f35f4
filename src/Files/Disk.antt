-- ===== src/Files/Disk.antt =====
-- The calls that internal/files makes of the operating system, and what its handlers answer.
use Prim.Native.Char.{Char}
use yesnas_server.Prelude.{
  ℕ, String, Bool, true, false, Option, none, some, List, [], ◌∷◌, ◌++◌, ◌||◌, ◌≡◌, refl, ◌⊎◌, inl,
  inr, arith,
}
use yesnas_server.Prelude.Format.{contains}
use yesnas_server.Prelude.Text.{to_lower}
use yesnas_server.Prelude.Result.{Result, ok, err}

-- What errors.Is tells of an error of package os; `other` is none of the three.
pub data ErrorKind : Type 0 where
  not_exist exist permission other : ErrorKind

pub record OsError : Type 0 where
  pub kind : ErrorKind
  pub message : String

-- fs.FileInfo, as far as it is read.
pub record Info : Type 0 where
  pub name : String
  pub is_dir : Bool
  pub size : ℕ

pub data Stat : Type 0 where
  found : Info → Stat
  unreadable : OsError → Stat

-- The calls that may change files, with their paths; those named sudo run a command as root.
-- sudo_cp is `cp -a`, sudo_cp_file is `cp`.
pub data Call : Type 0 where
  rename sudo_mv sudo_cp sudo_cp_file : String → String → Call
  remove remove_all mkdir mkdir_all : String → Call
  sudo_rm sudo_rm_all sudo_mkdir sudo_mkdir_all : String → Call

-- The calls that were made so far, the first one first.
abbrev pub History : Type 0
History = List Call

-- The operating system and Go's packages: what a file is and how a call ends may depend on all
-- that was done before; the URL encoding of package base64; the letters beyond ASCII.
pub record Os : Type 0 where
  pub stat : History → String → Stat
  pub result : History → Call → Option OsError
  pub decode : String → Option String
  pub encode : String → String
  pub wide : Char → Char

unfoldable pub perform : Os → Call → History → Option OsError × History
perform os call h = (os.result h call, h ++ call ∷ [])

abbrev pub is_not_exist : OsError → Bool
is_not_exist e = elim e.kind [ not_exist ↦ true | _ ↦ false ]

abbrev pub is_exist : OsError → Bool
is_exist e = elim e.kind [ exist ↦ true | _ ↦ false ]

abbrev pub is_permission : OsError → Bool
is_permission e = elim e.kind [ permission ↦ true | _ ↦ false ]

-- uploads.go: isCrossDeviceRename, of an error that is there.
unfoldable pub is_cross_device_rename : Os → OsError → Bool
unfolding contains to_lower
is_cross_device_rename os e =
    contains "cross-device link" (to_lower os.wide e.message)
    || contains "invalid cross-device link" (to_lower os.wide e.message)

-- A step of a handler: its value, or the status and the code that the client is sent.
pub data Outcome {ℓ} (Value : Type ℓ) : Type ℓ where
  done : Value → Outcome Value
  refused : ℕ → String → Outcome Value

infixl 5 ◌>>◌ ◌>>=◌
abbrev pub ◌>>=◌ {ℓ κ} :
    {Value : Type ℓ} {Next : Type κ} → Outcome Value → (Value → Outcome Next) → Outcome Next
refused status code >>= rest = refused status code
done value >>= rest = rest value

abbrev pub ◌>>◌ {ℓ} : {Next : Type ℓ} → Outcome (Unit {0}) → Outcome Next → Outcome Next
first >> rest = first >>= λ _. rest

-- `if !test { writeAPIError(w, status, code, …); return }`.
abbrev pub require : Bool → ℕ → String → Outcome (Unit {0})
require true status code = done tt
require false status code = refused status code

-- A value that may be missing, and an error that is answered.
abbrev pub need {ℓ} : {Value : Type ℓ} → Option Value → ℕ → String → Outcome Value
need none status code = refused status code
need (some value) status code = done value

abbrev pub need_ok {ℓ} : {Value : Type ℓ} → Result Value → ℕ → String → Outcome Value
need_ok (err message) status code = refused status code
need_ok (ok value) status code = done value

-- The storage, as far as it is read here, and the look-up storage.Get.
pub data StorageType : Type 0 where
  local cloud smb ftp webdav nfs s3 google dropbox : StorageType

pub record Storage : Type 0 where
  pub id : String
  pub mount_path : String
  pub type : StorageType

abbrev pub Storages : Type 0
Storages = String → Option Storage

pub data FileNodeType : Type 0 where
  folder_type file_type : FileNodeType

-- What a step that is done says of its parts.
pub Outcome-cases {ℓ} :
    {Value : Type ℓ} (o : Outcome Value)
    → ((status : ℕ) × ((code : String) × (o ≡ refused status code)))
      ⊎ ((value : Value) × (o ≡ done value))
Outcome-cases (done value) = inr (value, refl)
Outcome-cases (refused status code) = inl (status, (code, refl))

pub bind-done {ℓ κ} :
    {Value : Type ℓ} {Next : Type κ} (o : Outcome Value) (f : Value → Outcome Next) (b : Next)
    → (o >>= f) ≡ done b
    → (value : Value) × (o ≡ done value) × (f value ≡ done b)
bind-done (done value) f b e = (value, refl, e)
bind-done (refused status code) f b e = absurd (ground (arith, e))

pub require-done {ℓ} :
    {Next : Type ℓ} (test : Bool) (status : ℕ) (code : String) (o : Outcome Next) (b : Next)
    → (require test status code >> o) ≡ done b
    → (test ≡ true) × (o ≡ done b)
require-done true status code o b e = (refl, e)
require-done false status code o b e = absurd (ground (arith, e))

pub need-done {ℓ κ} :
    {Value : Type ℓ} {Next : Type κ} (o : Option Value) (status : ℕ) (code : String)
    (f : Value → Outcome Next) (b : Next)
    → (need o status code >>= f) ≡ done b
    → (value : Value) × (o ≡ some value) × (f value ≡ done b)
need-done none status code f b e = absurd (ground (arith, e))
need-done (some value) status code f b e = (value, refl, e)

pub need_ok-done {ℓ κ} :
    {Value : Type ℓ} {Next : Type κ} (o : Result Value) (status : ℕ) (code : String)
    (f : Value → Outcome Next) (b : Next)
    → (need_ok o status code >>= f) ≡ done b
    → (value : Value) × (o ≡ ok value) × (f value ≡ done b)
need_ok-done (err e') status code f b e = absurd (ground (arith, e))
need_ok-done (ok value) status code f b e = (value, refl, e)

pub done-injective {ℓ} : {Value : Type ℓ} (a b : Value) → done a ≡ done b → a ≡ b
done-injective a b e = ground (arith, e)
