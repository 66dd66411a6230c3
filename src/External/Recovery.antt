-- ===== src/External/Recovery.antt =====
-- A data directory of external_state_machine.rs that is opened again behind a crash or a power loss.
use hiqlite.Common.{
  ◌≡◌, ◌∙◌, refl, sym, subst, ◌⊎◌, inl, Bool, true, false, ◌&&◌, Option, none, some, List, [], ◌∷◌,
  ◌++◌, arith, eq_iff, if_ind, All,
}
use hiqlite.External.Data.{
  Application, Lawful, Fallible, ok, err, StoredState, Marker, dirty_normal,
}
use hiqlite.External.Tables.{Database, is_some}
use hiqlite.External.Check.{Options, validate_configuration}
use hiqlite.External.Open.{
  Disk, OpenCalls, needs_rebuild, load_validated, opened, open_checked, open_file, open_inner,
}
use hiqlite.External.Writer.{Writer, Request, Reply, handle, run}
use hiqlite.External.Consistent.{IsConsistent}
use hiqlite.External.Running.{IsStored, IsSound, is_typed}
use hiqlite.External.Handled.{handle-IsSound}

-- The writer that an open starts.
abbrev pub spawn : {a : Application} → Disk a → Database a → StoredState a → Marker → Writer a
spawn disk db s marker = record {
  connection = record { database = db; transaction = none };
  stored = s;
  dirty = disk.dirty;
  active_marker = marker;
  poisoned = none;
  stopped = false;
}

-- The directory that a writer leaves behind the requests `before` and `tail`, where the commits of
-- `tail` are lost.
abbrev pub left : {a : Application} → Writer a → List (Request a) → List (Request a) → Disk a
left w before tail = record {
  dirty = (run w (before ++ tail)).0.dirty;
  file = some (run w before).0.connection.database;
}

-- What may be lost. SQLite keeps what is committed where the process ends, and with
-- `synchronous=FULL` where the power fails. With `NORMAL`, which the marker tells, the commits of some
-- last requests may be lost then; with `OFF` the marker asks for a rebuild.
abbrev pub MayLose : {a : Application} → Writer a → List (Request a) → List (Request a) → Type 0
MayLose w before tail = (tail ≡ []) ⊎ ((run w (before ++ tail)).0.dirty ≡ some dirty_normal)

some-injective {ℓ} : {A : Type ℓ} {x y : A} → some x ≡ some y → x ≡ y
some-injective p = cc p

module _ {a : Application} (options : Options) where
  pub run-IsSound :
      Lawful a
      → (w : Writer a) (rs : List (Request a)) → IsSound options w
      → All (λ r. is_typed r ≡ true) rs
      → IsSound options (run w rs).0
  unfolding run
  run-IsSound l w [] v t = v
  run-IsSound l w (r ∷ rs) v (t, ts) =
      if_ind (λ (x : Writer a × List (Reply a)). IsSound options x.0) w.stopped (λ _. v)
        (λ on. run-IsSound l (handle w r).0 rs (handle-IsSound options l w r v on t) ts)

  load_validated-IsConsistent :
      (db : Database a) (s : StoredState a)
      → load_validated options db ≡ ok s
      → (validate_configuration s options a.receipt_codec ≡ ok tt) × IsConsistent db s
  unfolding load_validated validate_configuration
  load_validated-IsConsistent db s h = (
    ground (arith, h),
    record {
      loaded = ground (arith, h);
      validated = ground (arith, h);
      codec = ground (arith, h, eq_iff s.receipt_codec a.receipt_codec);
    },
  )

  -- What an open that succeeds has checked.
  abbrev IsOpened : StoredState a → Disk a × Fallible (StoredState a) → Type 0
  IsOpened s x =
      x.1 ≡ ok s → (db : Database a) × (x.0.file ≡ some db) × (load_validated options db ≡ ok s)

  opened-IsOpened :
      (before : Option Marker) (marker : Marker) (db : Database a) (s : StoredState a)
      (r : Fallible (StoredState a))
      → load_validated options db ≡ r
      → IsOpened s (opened options before marker db r)
  opened-IsOpened before marker db s (ok x) e = λ h. (db, refl, e ∙ h)
  opened-IsOpened before marker db s (err x) e = λ h. absurd (cc h)

  open_checked-IsOpened :
      (before : Option Marker) (marker : Marker) (adopt : Bool) (db : Database a)
      (s : StoredState a) (r : Fallible (Unit {0}))
      → IsOpened s (open_checked options before marker adopt db r)
  open_checked-IsOpened before marker adopt db s (err x) = λ h. absurd (cc h)
  open_checked-IsOpened before marker adopt db s (ok _) = opened-IsOpened before marker _ s _ refl

  open_file-IsOpened :
      (calls : OpenCalls a) (before : Option Marker) (marker : Marker) (adopt : Bool)
      (file : Option (Database a)) (s : StoredState a)
      → IsOpened s (open_file calls options before marker adopt file)
  open_file-IsOpened calls before marker adopt none s =
      if_ind (IsOpened s) adopt (λ _ h. absurd (cc h))
        (λ _. opened-IsOpened before marker _ s _ refl)
  open_file-IsOpened calls before marker adopt (some db) s =
      open_checked-IsOpened before marker adopt db s _

  open_inner-IsOpened :
      (calls : OpenCalls a) (marker : Marker) (rebuild adopt : Bool) (disk : Disk a)
      (s : StoredState a)
      → IsOpened s (open_inner calls options marker rebuild adopt disk)
  unfolding open_inner
  open_inner-IsOpened calls marker rebuild adopt disk s =
      if_ind (IsOpened s) calls.is_locked (λ _ h. absurd (cc h))
        (λ _.
          if_ind (IsOpened s) (adopt && is_some disk.dirty) (λ _ h. absurd (cc h))
            (λ _.
              if_ind (IsOpened s) rebuild
                (λ _.
                  if_ind (IsOpened s) (needs_rebuild disk.dirty)
                    (λ _. open_file-IsOpened calls disk.dirty marker adopt none s)
                    (λ _ h. absurd (cc h)))
                (λ _.
                  if_ind (IsOpened s) (needs_rebuild disk.dirty) (λ _ h. absurd (cc h))
                    (λ _. open_file-IsOpened calls disk.dirty marker adopt disk.file s))))

  -- The writer that a successful open starts is sound.
  pub open_inner-IsSound :
      (calls : OpenCalls a) (marker : Marker) (rebuild adopt : Bool) (disk : Disk a)
      (s : StoredState a) (db : Database a)
      → let (disk₁, result) = open_inner calls options marker rebuild adopt disk in
        result ≡ ok s → disk₁.file ≡ some db → IsSound options (spawn disk₁ db s marker)
  open_inner-IsSound calls marker rebuild adopt disk s db h f =
      let (db', f', checked) = open_inner-IsOpened calls marker rebuild adopt disk s h in
      let same : db' ≡ db = some-injective (sym f' ∙ f) in
      let (c, v) =
        load_validated-IsConsistent db s
          (subst (λ d. load_validated options d ≡ ok s) same checked) in
      let w = spawn (open_inner calls options marker rebuild adopt disk).0 db s marker in
      let here : IsStored options w = record {
        after = s;
        configured = c;
        consistent = v;
        known = λ _. (refl, refl);
      } in
      record { stored = inl here; poison = λ _. (refl, here) }
