-- ===== src/Client/Write/Terminal.antt =====
-- `cmd_write` takes lines off the terminal only.
use network_doc.Base.{
  ◌-◌, ◌⊎◌, ℕ, ◌≤◌, ◌≡◌, refl, inl, inr, Option, none, some, List, arith, Bool-cases, Option-cases,
  length, CString, ℤ,
}
use network_doc.Message.{max_filename, buffer_size, Message, strncpy}
use network_doc.Text.{parse_sentences, max_sentences, parse_words, max_words_per_sentence}
use network_doc.Client.Network.{
  Network, Reply, not_sent, not_received, response, ClientState, succeeded, Outcome, exchange,
  request, contact_storage_server,
}
use network_doc.Client.Args.{scan_into}
use network_doc.Format.{scan_int}
use network_doc.Client.Write.{
  Choice, invalid, negative, chosen, lock_lines, lock_message, choose_sentence, edit_loop, compose,
  with_lock, with_content, edit_chosen, edit_sentence, printed_first, cmd_write,
}
use network_doc.Client.Write.Edits.{Conversion-cases, edit_loop-keeps}

Choice-cases :
    (r : Choice)
    → (r ≡ invalid)
      ⊎ ((r ≡ negative) ⊎ ((p : List CString × (ℕ × CString)) × (r ≡ chosen p.0 p.1.0 p.1.1)))
Choice-cases invalid = inl refl
Choice-cases negative = inr (inl refl)
Choice-cases (chosen all n sentence) = inr (inr ((all, (n, sentence)), refl))

module _ (N : Network) where
  open N use {World, Socket, connect}

  -- What a command that reads the terminal leaves has no more lines.
  abbrev pub Shrinks : List CString → Option (Outcome N × List CString) → Type 0
  Shrinks input none = Unit
  Shrinks input (some (o, unread)) = length unread ≤ length input

  edit_sentence-Shrinks :
      (c : ClientState Socket) (w : World) (ss_info filename : CString) (sentences : List CString)
      (n : ℕ) (sentence : CString) (input : List CString)
      → Shrinks input (edit_sentence N c w ss_info filename sentences n sentence input)
  unfolding edit_sentence
  edit_sentence-Shrinks c w ss_info filename sentences n sentence input =
      elim (Option-cases (edit_loop (parse_words sentence max_words_per_sentence) input)) [
        | inl e ↦ rw (e, edit_sentence) tt
        | inr (d, e) ↦ elim (Option-cases (compose sentences n d.words)) [
          | inl x ↦ rw (e, edit_sentence, x, edit_sentence) tt
          | inr (text, x) ↦
              rw (e, edit_sentence, x, edit_sentence)
                ((edit_loop-keeps {P = λ words. Unit {0}} (λ xs ys text printed u h. tt)
                  (parse_words sentence max_words_per_sentence) input d tt e).1)
        ]
      ]

  edit_chosen-Shrinks :
      (c : ClientState Socket) (w : World) (ss_info filename : CString) (n : ℤ) (content : CString)
      (input : List CString)
      → Shrinks input (edit_chosen N c w ss_info filename n content input)
  unfolding edit_chosen
  edit_chosen-Shrinks c w ss_info filename n content input =
      elim (Choice-cases
        (choose_sentence (parse_sentences (strncpy (buffer_size - 1) content) max_sentences) n)) [
          | inl e ↦ rw (e, edit_chosen) (omega arith)
          | inr (inl e) ↦ rw (e, edit_chosen) tt
          | inr (inr ((all, (i, sentence)), e)) ↦
              rw (e, edit_chosen) (edit_sentence-Shrinks c w ss_info filename all i sentence input)
        ]

  printed_first-Shrinks :
      (input printed : List CString) (o : Option (Outcome N × List CString))
      → Shrinks input o
      → Shrinks input (printed_first N printed o)
  printed_first-Shrinks input printed none h = h
  printed_first-Shrinks input printed (some (o, unread)) h = h

  with_content-Shrinks :
      (c : ClientState Socket) (ss_info filename : CString) (n : ℤ) (input : List CString)
      (p : World × Option Message)
      → Shrinks input (with_content N c ss_info filename n input p)
  with_content-Shrinks c ss_info filename n input (w, none) = omega arith
  with_content-Shrinks c ss_info filename n input (w, some resp) =
      elim (Bool-cases (succeeded resp)) [
        | inl e ↦ rw e (edit_chosen-Shrinks c w ss_info filename n resp.body input)
        | inr e ↦ rw e (omega arith)
      ]

  with_lock-Shrinks :
      (c : ClientState Socket) (filename : CString) (n : ℤ) (input : List CString)
      (p : World × Reply)
      → Shrinks input (with_lock N c filename n input p)
  with_lock-Shrinks c filename n input (w, not_sent) = omega arith
  with_lock-Shrinks c filename n input (w, not_received) = omega arith
  with_lock-Shrinks c filename n input (w, response resp) = elim (Bool-cases (succeeded resp)) [
    | inl e ↦ rw e (
        printed_first-Shrinks input (lock_lines n) _ (
          with_content-Shrinks c resp.body filename n input
            (contact_storage_server N w resp.body (request c.username "READ" filename))))
    | inr e ↦ rw e (omega arith)
  ]

  pub write-Shrinks :
      (c : ClientState Socket) (w : World) (args : CString) (input : List CString)
      → Shrinks input (cmd_write N c w args input)
  unfolding cmd_write
  write-Shrinks c w args input = elim (Conversion-cases (scan_into max_filename args)) [
    | inl e ↦ rw (e, cmd_write) (omega arith)
    | inr (inl e) ↦ rw (e, cmd_write) tt
    | inr (inr (filename, (rest, e))) ↦ elim (Option-cases (scan_int rest)) [
      | inl x ↦ rw (e, cmd_write, x, cmd_write) (omega arith)
      | inr ((n, more), x) ↦
          rw (e, cmd_write, x, cmd_write)
            (with_lock-Shrinks c filename n input
              (exchange N w c.nm_socket (lock_message N c filename n)))
    ]
  ]
