-- ===== src/External/Data.antt =====
-- The types of external_state_machine.rs, and what a caller brings with it.
use hiqlite.Common.{
  ℕ, ◌+◌, ◌^◌, ◌≡◌, ◌⊎◌, String, Bool, true, false, ◌&&◌, Option, none, some, List, ltb, ◌==◌,
  if◌then◌else◌, length,
}
use hiqlite.Wal.Header.{bytes_eq}

-- The caller's `DeterministicSqliteOperation`, its coordinate with serde's code of it, the code of
-- `()` and the digest. `Tables` is the content of the application's own tables. An operation may
-- leave changes behind when it fails. `none` stands for an error of a code.
pub record Application : Type 1 where
  pub Tables : Type 0
  pub Operation : Type 0
  pub Output : Type 0
  pub Failure : Type 0
  pub Coordinate : Type 0
  pub same_coordinate : Coordinate → Coordinate → Bool
  pub perform : Operation → Tables → Tables × (Failure ⊎ Output)
  pub receipt_codec : String
  pub encode_receipt : Output → Option (List ℕ)
  pub decode_receipt : List ℕ → Option Output
  pub serialize : Coordinate → Option (List ℕ)
  pub deserialize_exact : List ℕ → Option Coordinate
  pub serialize_unit : Option (List ℕ)
  pub sha256 : List ℕ → List ℕ

-- What is documented of those: a code is read back, an equality is reflexive, bincode writes no byte
-- for `()`, and a digest has 32 bytes.
pub record Lawful (a : Application) : Type 0 where
  pub same_coordinate_refl : (c : a.Coordinate) → a.same_coordinate c c ≡ true
  pub decode_receipt-encode_receipt :
      (x : a.Output) (bytes : List ℕ)
      → a.encode_receipt x ≡ some bytes
      → a.decode_receipt bytes ≡ some x
  pub deserialize_exact-serialize :
      (c : a.Coordinate) (bytes : List ℕ)
      → a.serialize c ≡ some bytes
      → a.deserialize_exact bytes ≡ some c
  pub serialize_unit-empty : (bytes : List ℕ) → a.serialize_unit ≡ some bytes → length bytes ≡ 0
  pub length-sha256 : (bytes : List ℕ) → length (a.sha256 bytes) ≡ 32

pub data ExternalError : Type 0 where
  invalid_metadata configuration_mismatch snapshot_mismatch : String → ExternalError
  unsupported_format commit_conflict receipt_unavailable : ℕ → ExternalError
  sequence_gap sequence_before_initial receipt_too_large : ℕ → ℕ → ExternalError
  missing_metadata sequence_overflow serialization sqlite io : ExternalError
  stale_snapshot locked rebuild_required rebuild_not_required : ExternalError
  adoption_not_allowed : String → ExternalError
  writer_poisoned : ExternalError → ExternalError

pub data Result {ℓ κ} (E : Type ℓ) (A : Type κ) : Type (ℓ ⊔ κ) where
  ok : A → Result E A
  err : E → Result E A

abbrev pub Fallible {ℓ} : Type ℓ → Type ℓ
Fallible A = Result ExternalError A

infixl 5 ◌>>=◌ ◌>>◌
abbrev pub ◌>>=◌ {ℓ κ μ} :
    {E : Type ℓ} {A : Type κ} {B : Type μ} → Result E A → (A → Result E B) → Result E B
ok a >>= f = f a
err e >>= f = err e

abbrev pub ◌>>◌ {ℓ} : {B : Type ℓ} → Fallible (Unit {0}) → Fallible B → Fallible B
m >> k = m >>= λ _. k

abbrev pub guard : Bool → ExternalError → Fallible (Unit {0})
guard true e = ok tt
guard false e = err e

-- `ok_or`
abbrev pub present {ℓ} : {A : Type ℓ} → Option A → ExternalError → Fallible A
present none e = err e
present (some a) e = ok a

abbrev pub is_err {ℓ κ} : {E : Type ℓ} {A : Type κ} → Result E A → Bool
is_err (ok a) = false
is_err (err e) = true

-- `CommitSequence::checked_next`
unfoldable pub checked_next : ℕ → Fallible ℕ
checked_next n = if ltb (n + 1) (2 ^ 64) then ok (n + 1) else err sequence_overflow

pub data EntryKind : Type 0 where
  operation advance : EntryKind

unfoldable pub as_i64 : EntryKind → ℕ
as_i64 operation = 1
as_i64 advance = 2

unfoldable pub from_i64 : ℕ → Fallible EntryKind
from_i64 value =
    if value == 1
    then ok operation
    else if value == 2
    then ok advance
    else err (invalid_metadata "unknown external entry kind")

abbrev pub same_kind : EntryKind → EntryKind → Bool
same_kind operation operation = true
same_kind advance advance = true
same_kind operation advance = false
same_kind advance operation = false

pub data ApplyOutcome {ℓ} (T : Type ℓ) : Type ℓ where
  applied recovered : T → ApplyOutcome T

pub data ApplyError (F : Type 0) : Type 0 where
  engine : ExternalError → ApplyError F
  failed : F → ApplyError F

pub record Commit (a : Application) : Type 0 where
  pub sequence : ℕ
  pub coordinate : a.Coordinate
  pub command_digest : List ℕ
  pub state_schema : ℕ
  pub receipt_schema : ℕ

pub record Applied (a : Application) : Type 0 where
  pub commit : Commit a
  pub kind : EntryKind
  pub receipt_digest : List ℕ

pub record StoredState (a : Application) : Type 0 where
  pub application_id : String
  pub initial_sequence : ℕ
  pub initial_state_schema : ℕ
  pub receipt_codec : String
  pub receipt_retention : ℕ
  pub max_receipt_bytes : ℕ
  pub last_applied : Option (Applied a)
  pub receipt_floor : Option ℕ
  pub snapshot_id : Option String

pub record StoredReceipt (a : Application) : Type 0 where
  pub commit : Commit a
  pub kind : EntryKind
  pub codec : String
  pub receipt : List ℕ
  pub receipt_digest : List ℕ

abbrev pub max_receipt_retention : ℕ
max_receipt_retention = 1000000

abbrev pub max_receipt_bytes : ℕ
max_receipt_bytes = 16777216

abbrev pub advance_receipt_codec : String
advance_receipt_codec = "hiqlite/advance-v1"

-- `==` on commits.
unfoldable pub same_commit : {a : Application} → Commit a → Commit a → Bool
same_commit {a} x y =
    x.sequence == y.sequence
    && a.same_coordinate x.coordinate y.coordinate
    && bytes_eq x.command_digest y.command_digest
    && x.state_schema == y.state_schema
    && x.receipt_schema == y.receipt_schema

-- The content of the file `dirty`.
pub data Marker : Type 0 where
  dirty_full dirty_normal dirty_off dirty_poisoned : Marker

-- The widths of a commit's Rust types: three `u64` and a `[u8; 32]`.
unfoldable pub has_widths : {a : Application} → Commit a → Bool
has_widths c =
    ltb c.sequence (2 ^ 64)
    && length c.command_digest == 32
    && ltb c.state_schema (2 ^ 64)
    && ltb c.receipt_schema (2 ^ 64)
