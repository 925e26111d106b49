-- ===== src/Controller/Probe.antt =====
-- crates/tailsvc-controller/src/probe.rs. What the connection and the clock yield are arguments, and so
-- is the decoding of bytes as text.
use tailroute.Base.{
  ℕ, Result, ok, err, Timed, finished, elapsed, Option, some, List, [], ◌∷◌, ◌++◌, is_empty,
  if◌then◌else◌,
}
use tailroute.Base.Text.{Text, text, trim, split_first, split_whitespace, starts_with}

pub record ProbeResult : Type 0 where
  pub status : Text
  pub ms : Option ℕ
  pub detail : Option Text

-- The other end of the connection; `receive` yields the bytes of one read into a buffer of 256.
pub record Peer : Type 0 where
  pub connect : Text → Timed Unit Text
  pub write_all : Text → Result Unit Text
  pub receive : Timed (List ℕ) Text

-- The lines of the request end in a carriage return and a line feed.
abbrev crlf : Text
crlf = 13 ∷ 10 ∷ []

abbrev pub request : Text → Text
request hostname =
    text "GET / HTTP/1.1"
    ++ (crlf
        ++ (text "Host: "
            ++ (hostname
                ++ (crlf
                    ++ (text "Connection: close"
                        ++ (crlf ++ (text "User-Agent: tailsvc-admin-probe" ++ (crlf ++ crlf))))))))

abbrev pub failed : ℕ → Text → ProbeResult
failed ms detail = record { status = text "fail"; ms = some ms; detail = some detail }

abbrev pub timed_out : ℕ → Text → ProbeResult
timed_out ms detail = record { status = text "timeout"; ms = some ms; detail = some detail }

-- `split_whitespace().nth(1).unwrap_or("")`.
abbrev pub second : List Text → Text
second [] = []
second (w ∷ []) = []
second (w ∷ code ∷ ws) = code

-- What the status line tells. A code of 2xx, 3xx or 4xx is not empty, so that only the test for an
-- empty one remains.
unfoldable pub judge_line : ℕ → Text → ProbeResult
judge_line ms line =
    let code = second (split_whitespace line) in
    let bad : ProbeResult = failed ms (text "bad status line: " ++ line) in
    if starts_with (text "HTTP/1.") line
    then if starts_with (text "5") code
      then failed ms line
      else if is_empty code
      then bad
      else record { status = text "ok"; ms = some ms; detail = some line }
    else bad

module _ (from_utf8_lossy : List ℕ → Text) (timeout_ms ms : ℕ) where
  unfoldable pub judge_response : Timed (List ℕ) Text → ProbeResult
  unfolding judge_line
  judge_response elapsed = timed_out timeout_ms (text "read timeout")
  judge_response (finished (err e)) = failed ms (text "read: " ++ e)
  judge_response (finished (ok [])) = failed ms (text "empty response")
  judge_response (finished (ok (b ∷ bytes))) =
      judge_line ms (trim (split_first 10 (from_utf8_lossy (b ∷ bytes))))

  unfoldable pub judge_write : Result Unit Text → Timed (List ℕ) Text → ProbeResult
  unfolding judge_response
  judge_write (err e) received = failed ms (text "write: " ++ e)
  judge_write (ok _) received = judge_response received

  unfoldable pub judge_connect :
      Timed Unit Text → Result Unit Text → Timed (List ℕ) Text → ProbeResult
  unfolding judge_write
  judge_connect elapsed written received = timed_out timeout_ms (text "connect timeout")
  judge_connect (finished (err e)) written received = failed ms (text "connect: " ++ e)
  judge_connect (finished (ok _)) written received = judge_write written received

  unfoldable pub probe_via_agent : Peer → Text → Text → ProbeResult
  unfolding judge_connect
  probe_via_agent peer agent_ip hostname =
      judge_connect (peer.connect (agent_ip ++ text ":80")) (peer.write_all (request hostname))
        peer.receive
