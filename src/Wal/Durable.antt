-- ===== src/Wal/Durable.antt =====
-- What hiqlite-wal/src/metadata.rs promises of its file: it is read back, and a power loss leaves it
-- whole.
use hiqlite.Common.{
  ℕ, suc, zero, Bool, true, false, append-nil, ◌≡◌, refl, ap, ◌⊎◌, inl, inr, none, some, List, [],
  ◌∷◌, ◌++◌, arith, length, take, drop, length-append, ltb_ge, take-append_len, drop-append_len,
  take-nil,
}
use hiqlite.Wal.Outcome.{ok}
use hiqlite.Wal.Header.{bytes_eq, bytes_eq_refl}
use hiqlite.Wal.Metadata.{
  Metadata, Codec, File, Directory, FileCall, call, calls, power_loss, magic_no_meta,
  write_unchecked, write, read_bytes, read_or_create,
}

module _ (c : Codec) where
  open c use {
    serialize, deserialize, checksum, deserialize-serialize, length-serialize, length-checksum,
  }

  -- The bytes of the file that is written for a value.
  abbrev pub published : Metadata → List ℕ
  published m = ((magic_no_meta ++ (1 ∷ [])) ++ checksum (serialize m)) ++ serialize m

  abbrev on_disk : Metadata → File
  on_disk m = record { synced = published m; pending = [] }

  write-published :
      (m : Metadata) (d : Directory)
      → write c m d ≡ record { meta = some (on_disk m); tmp = none; on_disk = some (on_disk m) }
  unfolding write write_unchecked calls call
  write-published m d = refl

  read_bytes-published : (m : Metadata) → read_bytes c (published m) ≡ ok m
  unfolding read_bytes
  read_bytes-published m =
      let s = serialize m in
      let front = (magic_no_meta ++ (1 ∷ [])) ++ checksum s in
      let twelve : drop 12 (front ++ s) ≡ s =
        drop-append_len 12 front s (omega (arith, length-checksum s)) in
      let sum_at : take 4 (checksum s ++ s) ≡ checksum s =
        take-append_len 4 (checksum s) s (length-checksum s) in
      rw
        (
          ltb_ge (length (front ++ s)) 14
              (omega (arith, length-append front s, length-checksum s, length-serialize m)),
          twelve,
          sum_at,
          bytes_eq_refl (checksum s),
          deserialize-serialize m,
        )
        (unfold bytes_eq in refl)

  read-on_disk : (m : Metadata) → read_bytes c (published m ++ []) ≡ ok m
  read-on_disk m = rw (append-nil (published m)) (read_bytes-published m)

  -- Metadata that was written is read back, whatever the directory held before.
  pub read_or_create-write :
      (m : Metadata) (d : Directory) → read_or_create c (write c m d) ≡ (ok m, write c m d)
  unfolding read_or_create
  read_or_create-write m d = rw (write-published m d) (
      ap (λ o. (o, record { meta = some (on_disk m); tmp = none; on_disk = some (on_disk m) }))
        (read-on_disk m))

  -- A write that stops at an error leaves the file as it was, or with the new metadata.
  pub take-write_unchecked :
      (n : ℕ) (m : Metadata) (d : Directory)
      → let d' = calls (take n (write_unchecked c (serialize m))) d in
        (d'.meta ≡ d.meta) ⊎ ((read_or_create c d').0 ≡ ok m)
  unfolding write_unchecked calls call read_or_create
  take-write_unchecked zero m d = inl refl
  take-write_unchecked (suc (zero)) m d = inl refl
  take-write_unchecked (suc (suc (zero))) m d = inl refl
  take-write_unchecked (suc (suc (suc (zero)))) m d = inl refl
  take-write_unchecked (suc (suc (suc (suc (zero))))) m d = inl refl
  take-write_unchecked (suc (suc (suc (suc (suc (zero)))))) m d = inl refl
  take-write_unchecked (suc (suc (suc (suc (suc (suc (zero))))))) m d = inl refl
  take-write_unchecked (suc (suc (suc (suc (suc (suc (suc (zero)))))))) m d = inr (read-on_disk m)
  take-write_unchecked (suc (suc (suc (suc (suc (suc (suc (suc (n))))))))) m d =
      rw (take-nil FileCall n) (inr (read-on_disk m))

  -- A power loss after any number of the file system's calls of a write, which may undo the rename
  -- until the directory is synced and leaves any bytes in the place of those that a file had not
  -- synced, leaves the metadata file as it would have left it before the write, or a start reads the
  -- new metadata.
  pub calls-write_unchecked :
      (n : ℕ) (undo : Bool) (rest : List ℕ) (m : Metadata) (d : Directory)
      → let d' = power_loss undo rest (calls (take n (write_unchecked c (serialize m))) d) in
        (d'.meta ≡ (power_loss undo rest d).meta) ⊎ ((read_or_create c d').0 ≡ ok m)
  unfolding write_unchecked calls call power_loss read_or_create
  calls-write_unchecked zero undo rest m d = inl refl
  calls-write_unchecked (suc zero) undo rest m d = inl refl
  calls-write_unchecked (suc (suc zero)) undo rest m d = inl refl
  calls-write_unchecked (suc (suc (suc zero))) undo rest m d = inl refl
  calls-write_unchecked (suc (suc (suc (suc zero)))) undo rest m d = inl refl
  calls-write_unchecked (suc (suc (suc (suc (suc zero))))) undo rest m d = inl refl
  calls-write_unchecked (suc (suc (suc (suc (suc (suc zero)))))) undo rest m d = inl refl
  calls-write_unchecked (suc (suc (suc (suc (suc (suc (suc zero))))))) true rest m d = inl refl
  calls-write_unchecked (suc (suc (suc (suc (suc (suc (suc zero))))))) false rest m d =
      inr (read-on_disk m)
  calls-write_unchecked (suc (suc (suc (suc (suc (suc (suc (suc n)))))))) true rest m d =
      rw (take-nil FileCall n) (inr (read-on_disk m))
  calls-write_unchecked (suc (suc (suc (suc (suc (suc (suc (suc n)))))))) false rest m d =
      rw (take-nil FileCall n) (inr (read-on_disk m))
