-- ===== src/NameServer/Views/Bounds.antt =====
-- The listings fit their buffer: `strcat` never writes past it, and the response holds them whole.
use network_doc.Base.{
  ℕ, ◌-◌, ◌<◌, Bool, List, [], ◌∷◌, ◌++◌, arith, length, length-append, CString, codes,
}
use network_doc.Message.{append_line, buffer_size}
use network_doc.NameServer.State.{UserInfo}
use network_doc.NameServer.Database.{FileRow, RequestRow}
use network_doc.NameServer.Register.{user_line, list_loop}
use network_doc.NameServer.Access.{request_line, requests_loop}
use network_doc.NameServer.Views.{view_line, view_step, view_loop, view_text}

-- The text and its terminator fit the buffer, and so does the copy into the response.
abbrev pub Fits : CString → Type 0
Fits result = length result < buffer_size - 1

append_line-Fits : (result line : CString) → Fits result → Fits (append_line result line)
append_line-Fits result line h = ground (arith, length-append result line)

-- However many users there are, the listing of `handle_list` fits.
list_loop-Fits :
    (users : List UserInfo) (result : CString) → Fits result → Fits (list_loop users result)
unfolding list_loop
list_loop-Fits [] result h = h
list_loop-Fits (u ∷ rest) result h =
    list_loop-Fits rest (append_line result (user_line u)) (append_line-Fits result (user_line u) h)

requests_loop-Fits :
    (rows : List RequestRow) (result : CString) → Fits result → Fits (requests_loop rows result)
unfolding requests_loop
requests_loop-Fits [] result h = h
requests_loop-Fits (r ∷ rest) result h =
    requests_loop-Fits rest (append_line result (request_line r))
      (append_line-Fits result (request_line r) h)

view_text-Fits : (acc : CString × ℕ) → Fits acc.0 → Fits (view_text acc)
unfolding view_text
view_text-Fits (result, count) h = ground arith

module _ (strftime : ℕ → CString) (detailed : Bool) where
  view_step-Fits :
      (r : FileRow) (acc : CString × ℕ) → Fits acc.0 → Fits (view_step strftime detailed r acc).0
  unfolding view_step
  view_step-Fits r (result, count) h =
      ground (arith, length-append {0} result (view_line strftime detailed r))

  view_loop-Fits :
      (rows : List FileRow) (acc : CString × ℕ)
      → Fits acc.0
      → Fits (view_loop strftime detailed rows acc).0
  unfolding view_loop
  view_loop-Fits [] acc h = h
  view_loop-Fits (r ∷ rest) acc h =
      view_loop-Fits rest (view_step strftime detailed r acc) (view_step-Fits r acc h)

  -- Whatever rows, users and requests there are, the texts of `handle_view`, `handle_list` and
  -- VIEWREQUESTS have fewer than BUFFER_SIZE - 1 bytes.
  pub listings-Fits :
      (rows : List FileRow) (users : List UserInfo) (requests : List RequestRow)
      → Fits (view_text (view_loop strftime detailed rows ([], 0)))
        × Fits (list_loop users (codes "Registered Users:" ++ 10 ∷ []))
        × Fits (requests_loop requests (codes "Pending Access Requests:" ++ 10 ∷ []))
  unfolding view_text
  listings-Fits rows users requests = (
    view_text-Fits (view_loop strftime detailed rows ([], 0))
        (view_loop-Fits rows ([], 0) (omega arith)),
    list_loop-Fits users _ (omega arith),
    requests_loop-Fits requests _ (omega arith),
  )
