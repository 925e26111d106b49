-- ===== src/Dns/Tcp/Frames.antt =====
-- A connection over TCP answers each framed message with a framed answer, in order.
use tailroute.Base.{
  ℕ, zero, suc, ◌+◌, ◌<◌, ◌≡◌, refl, ap, ◌∙◌, inl, inr, arith, Result, ok, err, Option, none, some,
  List, [], ◌∷◌, ◌++◌, length, length-append, All, is_some, true, Option-cases,
}
use tailroute.Base.Text.{Text}
use tailroute.Dns.Tcp.{
  read_exact, from_be_bytes, to_be_bytes, frame, Written, written_before, respond, handle_message,
  handle_length, handle_tcp_conn,
}

read_exact-append :
    (message rest : List ℕ) → read_exact (length message) (message ++ rest) ≡ some (message, rest)
unfolding read_exact
read_exact-append [] rest = refl
read_exact-append (b ∷ message) rest = rw (read_exact-append message rest) refl

abbrev rest_length : Option (List ℕ × List ℕ) → ℕ
rest_length none = 0
rest_length (some (first, rest)) = length rest

read_exact-length :
    (n : ℕ) (bytes first rest : List ℕ)
    → read_exact n bytes ≡ some (first, rest)
    → n + length rest ≡ length bytes
unfolding read_exact
read_exact-length zero bytes first rest e =
    omega (arith, ap (λ (o : Option (List ℕ × List ℕ)). rest_length o) e)
read_exact-length (suc n) [] first rest e = cc
read_exact-length (suc n) (b ∷ bytes) first rest e = elim (Option-cases (read_exact n bytes)) [
  | inl k ↦ let bad = rw k at e in absurd (cc)
  | inr ((p, left), k) ↦
      let good = rw k at e in
      let same : left ≡ rest = cc in
      omega (arith, read_exact-length n bytes p left k, ap (λ (l : List ℕ). length l) same)
]

-- A length that two bytes can hold.
abbrev pub Fits : List ℕ → Type 0
Fits message = length message < 65536

be_bytes : (n : ℕ) → n < 65536 → from_be_bytes (to_be_bytes n) ≡ n
be_bytes n h = omega arith

abbrev pub frames : List (List ℕ) → List ℕ
frames [] = []
frames (m ∷ messages) = frame m ++ frames messages

module _ {S : Type 0} (handle : S → List ℕ → Result (List ℕ) Text × S) where
  -- `Answers s messages answers`: from the state `s` the messages are answered so.
  abbrev pub Answers : S → List (List ℕ) → List (List ℕ) → Type 0
  Answers s [] [] = Unit
  Answers s [] (_ ∷ _) = ⊥
  Answers s (m ∷ messages) [] = ⊥
  Answers s (m ∷ messages) (a ∷ answers) =
      ((handle s m).0 ≡ ok a) × Answers (handle s m).1 messages answers

  round :
      (fuel : ℕ) (m rest : List ℕ) (s : S)
      → Fits m
      → handle_tcp_conn handle (suc fuel) (frame m ++ rest) s
        ≡ respond (handle_tcp_conn handle fuel rest) (handle s m)
  unfolding handle_tcp_conn read_exact
  round fuel m rest s fits =
      ap (handle_message handle (handle_tcp_conn handle fuel) s)
        (ap (λ n. read_exact n (m ++ rest)) (be_bytes (length m) fits) ∙ read_exact-append m rest)

  respond-ok :
      (next : S → Written) (r : Result (List ℕ) Text × S) (a : List ℕ)
      → r.0 ≡ ok a
      → respond next r ≡ written_before (frame a) (next r.1)
  respond-ok next (ok b, s) a e =
      let same : b ≡ a = cc in ap (λ x. written_before (frame x) (next s)) same
  respond-ok next (err x, s) a e = cc

  -- A connection over TCP comes to its end, and each framed message is answered by a frame, in
  -- order. The conditions: every message is answered and is shorter than 65536 bytes, and the fuel
  -- exceeds the number of bytes that the client sends.
  pub handle_tcp_conn-frames :
      (fuel : ℕ) (messages answers : List (List ℕ)) (s : S)
      → length (frames messages) < fuel
      → All Fits messages
      → Answers s messages answers
      → handle_tcp_conn handle fuel (frames messages) s ≡ some (frames answers, ok tt)
  unfolding handle_tcp_conn
  handle_tcp_conn-frames zero messages answers s enough fits answered = absurd (omega arith)
  handle_tcp_conn-frames (suc fuel) [] [] s enough fits answered = unfold read_exact in refl
  handle_tcp_conn-frames (suc fuel) [] (a ∷ answers) s enough fits answered = absurd answered
  handle_tcp_conn-frames (suc fuel) (m ∷ messages) [] s enough fits answered = absurd answered
  handle_tcp_conn-frames (suc fuel) (m ∷ messages) (a ∷ answers) s enough (fit, fits)
        (first, answered) =
      round fuel m (frames messages) s fit
      ∙ respond-ok (handle_tcp_conn handle fuel (frames messages)) (handle s m) a first
      ∙ ap (written_before (frame a)) (
          handle_tcp_conn-frames fuel messages answers (handle s m).1
            (omega (arith, length-append m (frames messages))) fits answered)

  ended :
      (next : S → Written) (r : Result (List ℕ) Text × S)
      → ((s : S) → is_some (next s) ≡ true)
      → is_some (respond next r) ≡ true
  ended next (err e, s) ends = refl
  ended next (ok a, s) ends = before (next s) (ends s)
    where
      before : (w : Written) → is_some w ≡ true → is_some (written_before (frame a) w) ≡ true
      before none e = cc
      before (some (later, end)) e = refl

  -- A connection over TCP comes to its end, whatever the bytes that the client sends before it
  -- closes and whatever the answers. The condition: the fuel exceeds the number of the bytes.
  pub handle_tcp_conn-ends :
      (fuel : ℕ) (input : List ℕ) (s : S)
      → length input < fuel
      → is_some (handle_tcp_conn handle fuel input s) ≡ true
  unfolding handle_tcp_conn
  handle_tcp_conn-ends zero input s enough = absurd (omega arith)
  handle_tcp_conn-ends (suc fuel) input s enough = elim (Option-cases (read_exact 2 input)) [
    | inl n ↦ ap (λ o. is_some (handle_length handle (handle_tcp_conn handle fuel) s o)) n
    | inr ((len, rest), n) ↦
        ap (λ o. is_some (handle_length handle (handle_tcp_conn handle fuel) s o)) n
        ∙ elim (Option-cases (read_exact (from_be_bytes len) rest)) [
          | inl k ↦ ap (λ o. is_some (handle_message handle (handle_tcp_conn handle fuel) s o)) k
          | inr ((message, left), k) ↦
              ap (λ o. is_some (handle_message handle (handle_tcp_conn handle fuel) s o)) k
              ∙ ended (handle_tcp_conn handle fuel left) (handle s message) (λ t.
                handle_tcp_conn-ends fuel left t (
                  omega (
                    arith,
                    read_exact-length 2 input len rest n,
                    read_exact-length (from_be_bytes len) rest message left k,
                  )))
        ]
  ]
