-- ===== src/Client/Tags/Revert.antt =====
-- A checkpoint, a write, and the way back, with the messages that the client sends.
use network_doc.Base.{
  ℕ, ◌<◌, ◌≡◌, refl, sym, ap, ◌∙◌, ◌≢◌, true, false, not, none, some, [], ◌∷◌, ◌++◌, arith, leb,
  ◌==◌, some_inj, length, take_all, All, CString, codes, str_eq, String,
}
use mathlib.Core.Path.{subst}
use network_doc.Message.{strncpy, buffer_size, Message, success}
use network_doc.Format.{is_blank, scan_until, scan_char_word, command_overflows}
use network_doc.Format.Fields.{scan_until-field, scan_word-all}
use network_doc.Storage.Host.{Host, HostLaws, CheckpointRow}
use network_doc.Storage.Content.{StorageServerState, get_file_path}
use network_doc.Storage.Handlers.{handle_write}
use network_doc.Storage.Checkpoints.{
  create_checkpoint, revert_checkpoint, checkpoint_command, handle_checkpoint_ops,
}
use network_doc.Storage.Saving.{Saves, write-Saves}
use network_doc.Client.Tags.{tagged}
use network_doc.Storage.Checkpoints.Revert.{
  HasCheckpoint, create-HasCheckpoint, Saves-HasCheckpoint, revert-HasCheckpoint,
}
use network_doc.Storage.Undo.{Writable, load_all}
use network_doc.Storage.Isolation.Names.{IsName, Fits}

-- A tag that "%s" reads whole into its array.
pub record IsTag (tag : CString) : Type 0 where
  pub some_character : 0 < length tag
  pub fits : length tag < 64
  pub no_blank : All (λ c. is_blank c ≡ false) tag

command_fits :
    (cmd tag : CString)
    → length cmd < 32
    → IsTag tag
    → command_overflows 32 64 (cmd, b'|' ∷ tag) ≡ false
unfolding command_overflows scan_char_word
command_fits cmd tag h t =
    let l : leb 64 (length tag) ≡ false = ground (arith, t.fits) in
    let k : leb 32 (length cmd) ≡ false = ground arith in
    rw (scan_word-all tag t.some_character t.no_blank, l, k) refl

scan_tag : (tag : CString) → IsTag tag → scan_char_word b'|' (b'|' ∷ tag) ≡ some (tag, [])
unfolding scan_char_word
scan_tag tag t = rw (scan_word-all tag t.some_character t.no_blank) refl

module _ (strftime : ℕ → CString) (H : Host) where
  open H use {Disk, Db, contents, write, replace, find_checkpoint, insert_checkpoint}

  command :
      (op : String) (s : StorageServerState Disk Db) (m : Message) (tag : CString) (now : ℕ)
      → All (λ c. not (c == b'|') ≡ true) (codes op)
      → 0 < length (codes op)
      → length (codes op) < 32
      → IsTag tag
      → m.body ≡ codes op ++ (b'|' ∷ tag)
      → handle_checkpoint_ops H strftime s m now
        ≡ checkpoint_command H strftime s m (codes op) (some (tag, [])) now
  unfolding handle_checkpoint_ops
  command op s m tag now h l k t e =
      let x = ap (scan_until b'|') e ∙ scan_until-field b'|' (codes op) tag h l in
      rw (x, handle_checkpoint_ops, command_fits (codes op) tag k t, scan_tag tag t) refl

  create_command :
      (s : StorageServerState Disk Db) (m : Message) (tag : CString) (now : ℕ)
      → IsTag tag
      → m.body ≡ codes "CREATE" ++ (b'|' ∷ tag)
      → handle_checkpoint_ops H strftime s m now ≡ some (create_checkpoint H s m tag now)
  unfolding checkpoint_command str_eq
  create_command s m tag now t e =
      command "CREATE" s m tag now (refl, (refl, (refl, (refl, (refl, (refl, tt)))))) (omega arith)
        (omega arith) t e

  revert_command :
      (s : StorageServerState Disk Db) (m : Message) (tag : CString) (now : ℕ)
      → IsTag tag
      → m.body ≡ codes "REVERT" ++ (b'|' ∷ tag)
      → handle_checkpoint_ops H strftime s m now ≡ some (revert_checkpoint H s m tag now)
  unfolding checkpoint_command str_eq
  revert_command s m tag now t e =
      command "REVERT" s m tag now (refl, (refl, (refl, (refl, (refl, (refl, tt)))))) (omega arith)
        (omega arith) t e

reverted :
    (strftime : ℕ → CString) (H : Host) (laws : HostLaws H)
    → Writable H laws
    → ((db : H.Db) (r : CheckpointRow) → H.insert_checkpoint db r ≢ none)
    → (s s1 s2 : StorageServerState H.Disk H.Db) (tag content : CString)
      (create change back created changed : Message) (at now later : ℕ)
    → Fits s.data_dir
    → IsName create.filename
    → IsTag tag
    → length content < buffer_size
    → H.contents s.disk (get_file_path s.data_dir create.filename) ≡ some content
    → H.find_checkpoint s.db create.filename tag ≡ some none
    → create.body ≡ codes "CREATE" ++ (b'|' ∷ tag)
    → handle_checkpoint_ops H strftime s create at ≡ some (s1, created)
    → change.filename ≡ create.filename
    → handle_write H s1 change now ≡ some (s2, changed)
    → back.filename ≡ create.filename
    → back.body ≡ codes "REVERT" ++ (b'|' ∷ tag)
    → (q : StorageServerState H.Disk H.Db × Message) × (handle_checkpoint_ops H strftime s2 back
          later
        ≡ some q)
      × ((q.1.error_code ≡ success)
          × (H.contents q.0.disk (get_file_path s.data_dir create.filename) ≡ some content))
reverted strftime H laws ok insertable s s1 s2 tag content create change back created changed at now
      later fits name t short there fresh eb h ec hw ef er =
    let loaded =
      load_all H laws s.disk (get_file_path s.data_dir create.filename) content short there in
    let first : create_checkpoint H s create tag at ≡ (s1, created) =
      some_inj (sym (create_command strftime H s create tag at t eb) ∙ h) in
    let has1 : HasCheckpoint H laws s create tag at content s1 =
      subst
        (λ (q : StorageServerState H.Disk H.Db × Message).
          HasCheckpoint H laws s create tag at content q.0)
        first (create-HasCheckpoint H laws s create tag at content ok insertable loaded fresh) in
    let saves : Saves H create.filename s2 s1 =
      subst (λ f. Saves H f s2 s1) ec (write-Saves H s1 s2 change changed now hw) in
    let has2 = Saves-HasCheckpoint H laws s create tag at content fits name s1 s2 saves has1 in
    (
      revert_checkpoint H s2 back tag later,
      revert_command strftime H s2 back tag later t er,
      revert-HasCheckpoint H laws s create tag at content fits name ok s2 back later short has2 ef,
    )

-- Where every file can be written and every row inserted: a CREATE message for a file whose content
-- fits the buffer, with a tag that the file has no checkpoint of yet, then a write to the file that is
-- answered, then a REVERT message with the tag. The REVERT is answered with success, and the file has
-- the content that it had at the CREATE. The tag has no blank and fits its array, the file's name has no
-- slash and fits its own, and the data directory's name has at most 240 bytes.
pub revert-checkpoint :
    (strftime : ℕ → CString) (H : Host) (laws : HostLaws H)
    → Writable H laws
    → ((db : H.Db) (r : CheckpointRow) → H.insert_checkpoint db r ≢ none)
    → (s s1 s2 : StorageServerState H.Disk H.Db) (user user' filename tag content : CString)
      (change created changed : Message) (at now later : ℕ)
    → Fits s.data_dir
    → IsName filename
    → IsTag tag
    → length content < buffer_size
    → H.contents s.disk (get_file_path s.data_dir filename) ≡ some content
    → H.find_checkpoint s.db filename tag ≡ some none
    → handle_checkpoint_ops H strftime s (tagged user "CHECKPOINT" "CREATE" filename tag) at
      ≡ some (s1, created)
    → change.filename ≡ filename
    → handle_write H s1 change now ≡ some (s2, changed)
    → (q : StorageServerState H.Disk H.Db × Message) × (handle_checkpoint_ops H strftime s2
          (tagged user' "REVERT" "REVERT" filename tag)
          later
        ≡ some q)
      × ((q.1.error_code ≡ success)
          × (H.contents q.0.disk (get_file_path s.data_dir filename) ≡ some content))
revert-checkpoint strftime H laws ok insertable s s1 s2 user user' filename tag content change
      created changed at now later fits name t short there fresh h ec hw =
    let e : strncpy 255 filename ≡ filename = take_all 255 filename (omega (arith, name.fits)) in
    let (q, a, (b, c)) =
      reverted strftime H laws ok insertable s s1 s2 tag content
        (tagged user "CHECKPOINT" "CREATE" filename tag) change
        (tagged user' "REVERT" "REVERT" filename tag) created changed at now later fits
        (subst IsName (sym e) name) t short
        (ap (λ f. H.contents s.disk (get_file_path s.data_dir f)) e ∙ there)
        (ap (λ f. H.find_checkpoint s.db f tag) e ∙ fresh) refl h (ec ∙ sym e) hw refl refl in
    (q, a, (b, ap (λ f. H.contents q.0.disk (get_file_path s.data_dir f)) (sym e) ∙ c))
