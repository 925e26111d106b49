-- ===== src/Dns/Tcp.antt =====
-- The connections of crates/tailsvc-dns/src/server.rs over TCP: messages behind two bytes of length. The
-- bytes that a client sends before it closes are an argument, and so is the handling of a message.
pub mod Frames
use tailroute.Base.{
  ℕ, zero, suc, ◌+◌, ◌*◌, ◌/◌, ◌%◌, Result, ok, err, Option, none, some, List, [], ◌∷◌, ◌++◌,
  length,
}
use tailroute.Base.Text.{Text, text}

-- `read_exact`: the first bytes and the rest, if there are enough.
abbrev cons_read : ℕ → Option (List ℕ × List ℕ) → Option (List ℕ × List ℕ)
cons_read b none = none
cons_read b (some (bytes, rest)) = some (b ∷ bytes, rest)

unfoldable pub read_exact : ℕ → List ℕ → Option (List ℕ × List ℕ)
read_exact zero bytes = some ([], bytes)
read_exact (suc n) [] = none
read_exact (suc n) (b ∷ bytes) = cons_read b (read_exact n bytes)

-- `u16::from_be_bytes`.
abbrev pub from_be_bytes : List ℕ → ℕ
from_be_bytes [] = 0
from_be_bytes (hi ∷ []) = 0
from_be_bytes (hi ∷ lo ∷ more) = hi * 256 + lo

-- `(n as u16).to_be_bytes()`.
abbrev pub to_be_bytes : ℕ → List ℕ
to_be_bytes n = (n % 65536 / 256) ∷ (n % 256) ∷ []

abbrev pub frame : List ℕ → List ℕ
frame message = to_be_bytes (length message) ++ message

-- The bytes written, and how the connection ended; `none` means that the fuel ran out.
abbrev pub Written : Type 0
Written = Option (List ℕ × Result Unit Text)

abbrev pub written_before : List ℕ → Written → Written
written_before bytes none = none
written_before bytes (some (later, end)) = some (bytes ++ later, end)

module _ {S : Type 0} where
  -- What follows the handling of a message: its answer and the next round, or the end by an error.
  abbrev pub respond : (S → Written) → Result (List ℕ) Text × S → Written
  respond next (err e, s) = some ([], err e)
  respond next (ok resp, s) = written_before (frame resp) (next s)

  module _ (handle : S → List ℕ → Result (List ℕ) Text × S) where
    -- The message of a round; a client that closes within one ends the connection with an error.
    abbrev pub handle_message : (List ℕ → S → Written) → S → Option (List ℕ × List ℕ) → Written
    handle_message next s none = some ([], err (text "early eof"))
    handle_message next s (some (message, rest)) = respond (next rest) (handle s message)

    -- The length of a round; a client that closes before it ends the connection.
    abbrev pub handle_length : (List ℕ → S → Written) → S → Option (List ℕ × List ℕ) → Written
    handle_length next s none = some ([], ok tt)
    handle_length next s (some (len, rest)) =
        handle_message next s (read_exact (from_be_bytes len) rest)

    unfoldable pub handle_tcp_conn : ℕ → List ℕ → S → Written
    unfolding read_exact
    handle_tcp_conn zero input s = none
    handle_tcp_conn (suc fuel) input s = handle_length (handle_tcp_conn fuel) s (read_exact 2 input)
