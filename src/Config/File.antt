-- ===== src/Config/File.antt =====
-- The file of config/config.go: load with its migration and its quarantine, and saveConfig. The text
-- of a configuration, with its encoder, its decoder and the reader of the old layout, is of other
-- packages. Whether a file can be written or removed is an argument.
use radiance.Common.{◌≡◌, refl, Bool, true, false, Option, none, some, if◌then◌else◌}

-- A text may decode to no configuration, the nil pointer.
pub record Texts (C J : Type 0) : Type 0 where
  pub encode : C → Option J
  pub decode : J → Option (Option C)
  pub decode_old : J → Option C

-- The file as it is found.
pub data Stored (J : Type 0) : Type 0 where
  absent unreadable : Stored J
  text : J → Stored J

pub record Disk (J : Type 0) : Type 0 where
  pub file : Stored J
  pub invalid_copy : Option J

pub data Loaded (C : Type 0) : Type 0 where
  loaded : Option C → Loaded C
  read_failed save_failed : Loaded C

-- Whether the migrated file, the copy of an invalid one, and the removal of that one succeed.
pub record Writes : Type 0 where
  pub migrated : Bool
  pub copy : Bool
  pub removal : Bool

abbrev pub save_encoded : {J : Type 0} → Disk J → Option J → Bool → Disk J × Bool
save_encoded d none writes = (d, false)
save_encoded d (some j) true = (record d { file = text j }, true)
save_encoded d (some j) false = (d, false)

module _ {C J : Type 0} (texts : Texts C J) where
  unfoldable pub save_config : Disk J → C → Bool → Disk J × Bool
  save_config d cfg writes = save_encoded d (texts.encode cfg) writes

  unfoldable pub quarantine_invalid_config : Disk J → J → Writes → Disk J
  quarantine_invalid_config d raw w =
      if w.copy
      then record { invalid_copy = some raw; file = if w.removal then absent else d.file }
      else d

  abbrev pub load_migrated : Disk J → J → Writes → Option C → Disk J × Loaded C
  load_migrated d raw w none = (quarantine_invalid_config d raw w, loaded none)
  load_migrated d raw w (some cfg) =
      let (d1, ok) = save_config d cfg w.migrated in
      (d1, if ok then loaded (some cfg) else save_failed)

  abbrev pub load_text : Disk J → J → Writes → Option (Option C) → Disk J × Loaded C
  load_text d raw w none = load_migrated d raw w (texts.decode_old raw)
  load_text d raw w (some cfg) = (d, loaded cfg)

  abbrev pub load_stored : Disk J → Writes → Stored J → Disk J × Loaded C
  load_stored d w absent = (d, loaded none)
  load_stored d w unreadable = (d, read_failed)
  load_stored d w (text raw) = load_text d raw w (texts.decode raw)

  unfoldable pub load : Disk J → Writes → Disk J × Loaded C
  load d w = load_stored d w d.file

  abbrev pub keep_loaded : Option C → Loaded C → Option C
  keep_loaded held (loaded (some cfg)) = some cfg
  keep_loaded held _ = held

  -- loadConfig: the disk, and the configuration held from then on.
  unfoldable pub load_config : Disk J → Option C → Writes → Disk J × Option C
  load_config d held w = ((load d w).0, keep_loaded held (load d w).1)

  -- The decoder reads what the encoder wrote.
  abbrev pub ReadsBack : Type 0
  ReadsBack = (cfg : C) (j : J) → texts.encode cfg ≡ some j → texts.decode j ≡ some (some cfg)

  load-text_read :
      (copy : Option J) (raw : J) (cfg : Option C) (w : Writes)
      → texts.decode raw ≡ some cfg
      → load (record { file = text raw; invalid_copy = copy }) w
        ≡ (record { file = text raw; invalid_copy = copy }, loaded cfg)
  unfolding load
  load-text_read copy raw cfg w e = rw e refl

  migrated-again :
      (copy : Option J) (raw : J) (again : Writes) (cfg : C) (encoded : Option J)
      → ReadsBack
      → texts.decode raw ≡ none
      → texts.decode_old raw ≡ some cfg
      → texts.encode cfg ≡ encoded
      → let (d1, ok) =
          save_encoded (record { file = text raw; invalid_copy = copy }) encoded true in
        load d1 again ≡ (d1, if ok then loaded (some cfg) else save_failed)
  unfolding load save_config
  migrated-again copy raw again cfg none back e o n = rw (load, e, o, n) refl
  migrated-again copy raw again cfg (some j) back e o n =
      load-text_read copy j (some cfg) again (back cfg j n)

  old-again :
      (copy : Option J) (raw : J) (again : Writes) (old : Option C)
      → ReadsBack
      → texts.decode raw ≡ none
      → texts.decode_old raw ≡ old
      → let (d1, r) =
          load_migrated
            (record { file = text raw; invalid_copy = copy })
            raw
            (record { migrated = true; copy = true; removal = true })
            old in
        load d1 again ≡ (d1, r)
  unfolding save_config quarantine_invalid_config load
  old-again copy raw again none back e o = refl
  old-again copy raw again (some cfg) back e o =
      migrated-again copy raw again cfg (texts.encode cfg) back e o refl

  text-again :
      (copy : Option J) (raw : J) (again : Writes) (cfg : Option (Option C))
      → ReadsBack
      → texts.decode raw ≡ cfg
      → let (d1, r) =
          load_text
            (record { file = text raw; invalid_copy = copy })
            raw
            (record { migrated = true; copy = true; removal = true })
            cfg in
        load d1 again ≡ (d1, r)
  text-again copy raw again none back e =
      old-again copy raw again (texts.decode_old raw) back e refl
  text-again copy raw again (some cfg) back e = load-text_read copy raw cfg again e

  stored-again :
      (file : Stored J) (copy : Option J) (again : Writes)
      → ReadsBack
      → let (d1, r) =
          load_stored
            (record { file = file; invalid_copy = copy })
            (record { migrated = true; copy = true; removal = true })
            file in
        load d1 again ≡ (d1, r)
  unfolding load
  stored-again absent copy again back = refl
  stored-again unreadable copy again back = refl
  stored-again (text raw) copy again back = text-again copy raw again (texts.decode raw) back refl

  -- What a load whose writes succeed leaves of a migrated configuration: its text in the file, or all
  -- as it was where it has none.
  abbrev Migrates : Disk J → C → Option J → Disk J → Loaded C → Type 0
  Migrates d cfg none d1 r = (d1 ≡ d) × (r ≡ save_failed)
  Migrates d cfg (some j) d1 r =
      (d1.file ≡ text j) × (d1.invalid_copy ≡ d.invalid_copy) × (r ≡ loaded (some cfg))

  -- Of a text that is not of this layout: a configuration of the old one, or an invalid text, which
  -- is put aside.
  abbrev Renews : Disk J → J → Option C → Disk J → Loaded C → Type 0
  Renews d raw none d1 r = (d1.file ≡ absent) × (d1.invalid_copy ≡ some raw) × (r ≡ loaded none)
  Renews d raw (some cfg) d1 r = Migrates d cfg (texts.encode cfg) d1 r

  abbrev Reads : Disk J → J → Option (Option C) → Disk J → Loaded C → Type 0
  Reads d raw none d1 r = Renews d raw (texts.decode_old raw) d1 r
  Reads d raw (some cfg) d1 r = (d1 ≡ d) × (r ≡ loaded cfg)

  -- What a load whose writes succeed does with a file, by what the file holds.
  abbrev pub Loads : Disk J → Stored J → Disk J → Loaded C → Type 0
  Loads d absent d1 r = (d1 ≡ d) × (r ≡ loaded none)
  Loads d unreadable d1 r = (d1 ≡ d) × (r ≡ read_failed)
  Loads d (text raw) d1 r = Reads d raw (texts.decode raw) d1 r

  abbrev pub all_written : Writes
  all_written = record { migrated = true; copy = true; removal = true }

  saved-Migrates :
      (d : Disk J) (cfg : C) (encoded : Option J)
      → let (d1, ok) = save_encoded d encoded true in
        Migrates d cfg encoded d1 (if ok then loaded (some cfg) else save_failed)
  saved-Migrates d cfg none = (refl, refl)
  saved-Migrates d cfg (some j) = (refl, refl, refl)

  migrated-Renews :
      (d : Disk J) (raw : J) (old : Option C)
      → Renews d raw old
          (load_migrated d raw all_written old).0
          (load_migrated d raw all_written old).1
  unfolding quarantine_invalid_config save_config
  migrated-Renews d raw none = (refl, refl, refl)
  migrated-Renews d raw (some cfg) = saved-Migrates d cfg (texts.encode cfg)

  text-Reads :
      (d : Disk J) (raw : J) (cfg : Option (Option C))
      → Reads d raw cfg (load_text d raw all_written cfg).0 (load_text d raw all_written cfg).1
  text-Reads d raw none = migrated-Renews d raw (texts.decode_old raw)
  text-Reads d raw (some cfg) = (refl, refl)

  stored-Loads :
      (d : Disk J) (file : Stored J)
      → Loads d file (load_stored d all_written file).0 (load_stored d all_written file).1
  stored-Loads d absent = (refl, refl)
  stored-Loads d unreadable = (refl, refl)
  stored-Loads d (text raw) = text-Reads d raw (texts.decode raw)

  -- Where the decoder reads what the encoder wrote: a load whose writes succeed puts the text of the
  -- configuration in place of one in the old layout, gives that configuration, and fails with the
  -- disk as it was if it has no text; it moves an invalid text to the copy and gives nothing; it
  -- gives what a file of this layout holds, nothing without a file, an error for one that cannot be
  -- read, and leaves those as they are. Every later load, whatever its writes, gives the same again
  -- and leaves the disk as it is.
  pub load-again :
      (d : Disk J) (again : Writes)
      → ReadsBack
      → let (d1, r) = load d all_written in Loads d d.file d1 r × (load d1 again ≡ (d1, r))
  unfolding load
  load-again d again back = (stored-Loads d d.file, stored-again d.file d.invalid_copy again back)
