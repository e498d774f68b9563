-- ===== src/Ledger/Decode.antt =====
-- `_decode` of a file that grew by a line, and of a line that `_append_locked` wrote.
use native.Mathlib.Nat.{add-zero}
use contractplane.Prelude.{
  ℕ, suc, ◌+◌, String, ◌≡◌, false, some, List, [], ◌∷◌, ◌++◌, ◌==◌, length, arith,
}
use contractplane.Errors.{ok, ◌>>=◌, >>=-eq-ok}
use contractplane.Platform.{Platform, IsCodec}
use contractplane.Ledger.{Event, event_json, decode_line, decode}

suc-add : (a b : ℕ) → a + suc b ≡ suc a + b
suc-add a b = omega arith

module _ (platform : Platform) where
  -- The last line is read behind the lines before it, and gets the next number.
  pub decode-append :
      (n : ℕ) (lines : List String) (line : String)
      → decode platform n (lines ++ line ∷ []) ≡ (do
        events ← decode platform n lines
        event ← decode_line platform (n + length lines) line
        ok (events ++ event ∷ []))
  unfolding decode
  decode-append n [] line = rw add-zero (ground arith)
  decode-append n (l ∷ lines) line =
      rw (decode-append (suc n) lines line, suc-add n (length lines)) (ground arith)

  -- A decoded file has as many events as lines.
  pub length-decode :
      (n : ℕ) (lines : List String) (events : List Event)
      → decode platform n lines ≡ ok events
      → length events ≡ length lines
  unfolding decode
  length-decode n [] events h = ground arith
  length-decode n (l ∷ lines) events h =
      let (event, _, h') = >>=-eq-ok (decode_line platform n l) _ h in
      let (rest, read, e) = >>=-eq-ok (decode platform (suc n) lines) _ h' in
      ground (arith, length-decode (suc n) lines rest read)

  pub decode_line-event :
      IsCodec platform
      → (e : Event) (t : String) → platform.dumps (event_json e) ≡ some t
      → (e.execution_id == "") ≡ false
      → (e.type == "") ≡ false
      → decode_line platform e.sequence t ≡ ok e
  unfolding decode_line event_json
  decode_line-event codec e t dumped id type =
      rw (codec.dumps_visible _ t dumped, codec.loads-dumps _ t dumped) (ground arith)
