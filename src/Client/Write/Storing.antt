-- ===== src/Client/Write/Storing.antt =====
-- What the client writes is what the storage server holds.
use network_doc.Base.{
  ℕ, ◌<◌, ◌≡◌, refl, sym, ap, ◌∙◌, inl, inr, true, ◌||◌, none, some, List, arith, leb, Bool-cases,
  some_inj, length, set, take_all, CString,
}
use mathlib.Core.Path.{subst}
use network_doc.Message.{Message, buffer_size, success}
use network_doc.Text.{max_sentence, join}
use network_doc.Storage.Host.{Host, HostLaws}
use network_doc.Storage.Content.{StorageServerState, get_file_path}
use network_doc.Storage.Handlers.{
  validate_basic_request, parse_edit, keep_undo, write_whole, handle_write,
}
use network_doc.Storage.Undo.{Writable}
use network_doc.Storage.Checkpoints.Revert.{keep_undo-dir, save-there}
use network_doc.Client.Network.{Network, ClientState}
use network_doc.Client.Write.{compose, write_message}

-- The content fits its buffer, and is the sentences with the words in place of one of them.
compose-inv :
    (sentences words : List CString) (n : ℕ) (content : CString)
    → compose sentences n words ≡ some content
    → (length content < buffer_size) × (content ≡ join (set sentences n (join words)))
unfolding compose
compose-inv sentences words n content h =
    elim (Bool-cases (
      leb max_sentence (length (join words))
      || leb buffer_size (length (join (set sentences n (join words)))))) [
        | inl e ↦ cc (rw (e, compose) at h)
        | inr e ↦
            let same = some_inj (rw (e, compose) at h) in
            let l : length (join (set sentences n (join words))) < buffer_size = ground arith in
            (subst (λ (t : CString). length t < buffer_size) same l, sym same)
      ]

module _ (N : Network) (H : Host) (laws : HostLaws H) where
  open H use {Disk, Db, contents}

  -- Where every file can be written: the message of the client's WRITE, with the content that it composed
  -- of the sentences and the edited words, is answered with success by the storage server, whose file then
  -- holds these sentences, joined, with the joined words in place of sentence n. The request is valid, and
  -- the content does not read as the edit of one word.
  pub write_message-stored :
      Writable H laws
      → (c : ClientState N.Socket) (s : StorageServerState Disk Db) (filename content : CString)
        (sentences words : List CString) (n now : ℕ)
      → compose sentences n words ≡ some content
      → parse_edit content ≡ none
      → validate_basic_request (write_message N c filename content) ≡ true
      → (q : StorageServerState Disk Db × Message) × (handle_write H s
            (write_message N c filename content)
            now
          ≡ some q)
        × ((q.1.error_code ≡ success)
            × (contents q.0.disk
                  (get_file_path s.data_dir (write_message N c filename content).filename)
                ≡ some (join (set sentences n (join words)))))
  unfolding handle_write write_whole
  write_message-stored ok c s filename content sentences words n now h whole valid =
      let m = write_message N c filename content in
      let (short, joined) = compose-inv sentences words n content h in
      let body : m.body ≡ content = take_all 65535 content (omega (arith, short)) in
      let no_edit : parse_edit m.body ≡ none = ap parse_edit body ∙ whole in
      let t = keep_undo H s m.filename in
      (
        write_whole H s m now,
        rw (valid, handle_write, no_edit, handle_write) refl,
        (
          refl,
          ap (λ d. contents (write_whole H s m now).0.disk (get_file_path d m.filename))
                (sym (keep_undo-dir H laws s m.filename))
              ∙ save-there H laws ok t m.filename m.body now
              ∙ ap some (body ∙ joined),
        ),
      )
