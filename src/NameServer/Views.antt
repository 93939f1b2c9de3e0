-- ===== src/NameServer/Views.antt =====
-- `handle_view` of src/nameserver/nm_handlers.c. The local time of a stamp is a parameter: it depends
-- on the time zone.
pub mod Bounds
use network_doc.Base.{
  ℕ, zero, suc, ◌+◌, ◌-◌, Bool, List, [], ◌∷◌, ◌++◌, ltb, ◌==◌, if◌then◌else◌, length, CString,
  codes,
}
use network_doc.Message.{buffer_size, Message, strncpy, data_response}
use network_doc.Format.{show_int, contains}
use network_doc.NameServer.State.{NameServerState}
use network_doc.NameServer.Database.{Database, FileRow}

-- n blanks
unfoldable pub blanks : ℕ → CString
blanks zero = []
blanks (suc n) = 32 ∷ blanks n

-- "%-30s" and "%5d"
abbrev pub pad_right : ℕ → CString → CString
pad_right n s = s ++ blanks (n - length s)

abbrev pub pad_left : ℕ → CString → CString
pad_left n s = blanks (n - length s) ++ s

-- strcpy(result, "No files found\n") if no line was written
unfoldable pub view_text : CString × ℕ → CString
view_text (result, count) = if count == 0 then codes "No files found" ++ (10 ∷ []) else result

module _ (strftime : ℕ → CString) where
  -- A line of the listing, in a buffer of 512 bytes.
  unfoldable pub view_line : Bool → FileRow → CString
  view_line detailed r = strncpy 511 (
      if detailed
      then (if r.is_folder then codes "d " else codes "- ")
        ++ (pad_right 30 r.filename
            ++ (32
                ∷ (pad_right 15 r.owner
                    ++ (32
                        ∷ (pad_left 5 (show_int r.word_count)
                            ++ (codes "w "
                                ++ (pad_left 3 (show_int r.sentence_count)
                                    ++ (codes "s  "
                                        ++ (strncpy 63 (strftime r.created_at) ++ (10 ∷ []))))))))))
      else (if r.is_folder then codes "[DIR] " else []) ++ (r.filename ++ (10 ∷ [])))

  -- A round of the loop: the text so far, and how many lines it holds.
  unfoldable pub view_step : Bool → FileRow → CString × ℕ → CString × ℕ
  view_step detailed r (result, count) =
      if ltb (length result + length (view_line detailed r)) (buffer_size - 1)
      then (result ++ view_line detailed r, count + 1)
      else (result, count)

  unfoldable pub view_loop : Bool → List FileRow → CString × ℕ → CString × ℕ
  view_loop detailed [] acc = acc
  view_loop detailed (r ∷ rest) acc = view_loop detailed rest (view_step detailed r acc)

  module _ (D : Database) where
    open D use {Db, view_all, view_of}

    unfoldable pub handle_view : NameServerState Db → Message → NameServerState Db × Message
    handle_view s msg =
        let rows =
          if contains (codes "-a") msg.body then view_all s.db else view_of s.db msg.username in
        (s, data_response (view_text (view_loop (contains (codes "-l") msg.body) rows ([], 0))))
