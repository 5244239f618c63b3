-- ===== src/Listener/Result.antt =====
-- internal/eventlistener/listener.go: `readResult`. The reader is the list of the bytes that the
-- child will still write, and an error is `none`: after each the protocol loop ends.
use gosupervisor.Prelude.{
  leb, ◌==◌, if◌then◌else◌, length, length-append, take, drop, take-length-append,
  drop-length-append, Text, codes, text_eq, text_eq_refl, decimal, max_int, atoi, trim_right,
  trim_space, AllDigits, decimal-AllDigits, decimal-ne-nil, atoi-decimal, read_line, IsFree,
  IsFree-append, decimal-IsFree, read_line-append, has, has-IsFree, ℕ, ◌≤◌, ◌≡◌, refl, ◌≢◌, true,
  false, Option, none, some, [], ◌∷◌, ◌++◌, arith, pos,
}

-- `strings.SplitN(line, " ", 2)`, if it has two parts.
unfoldable pub split_blank : Text → Option (Text × Text)
split_blank [] = none
split_blank (c ∷ s) = elim (c == 32) [
  | true ↦ some ([], s)
  | false ↦ elim (split_blank s) [ none ↦ none | some (word, more) ↦ some (c ∷ word, more) ]
]

-- The length that a result line announces.
unfoldable pub result_length : Text → Option ℕ
unfolding split_blank
result_length line = elim (split_blank (trim_space line)) [
  | none ↦ none
  | some (word, number) ↦
      if text_eq word (codes "RESULT")
      then elim (atoi number) [ some (pos n) ↦ some n | _ ↦ none ]
      else none
]

-- The payload, and what the reader still holds.
unfoldable pub read_result : Text → Option (Text × Text)
unfolding result_length
read_result reader = elim (read_line reader) [
  | none ↦ none
  | some (line, more) ↦ elim (result_length line) [
    | none ↦ none
    | some n ↦ if leb n (length more) then some (take n more, drop n more) else none
  ]
]

trim_right-AllDigits : (s : Text) → AllDigits s → trim_right s ≡ s
unfolding trim_right
trim_right-AllDigits [] h = refl
trim_right-AllDigits (c ∷ []) h = ground arith
trim_right-AllDigits (c ∷ d ∷ s) h = rw (trim_right-AllDigits (d ∷ s) h.1, trim_right)

trim_right-append : (p s : Text) → s ≢ [] → trim_right s ≡ s → trim_right (p ++ s) ≡ p ++ s
unfolding trim_right
trim_right-append [] s h e = e
trim_right-append (c ∷ []) [] h e = absurd (h refl)
trim_right-append (c ∷ []) (d ∷ s) h e = rw (e, trim_right)
trim_right-append (c ∷ b ∷ p) s h e = rw (trim_right-append (b ∷ p) s h e, trim_right)

trim_space-result :
    (n : ℕ) → trim_space (codes "RESULT " ++ decimal n) ≡ codes "RESULT " ++ decimal n
unfolding trim_space
trim_space-result n =
    trim_right-append (codes "RESULT ") (decimal n) (decimal-ne-nil n)
      (trim_right-AllDigits (decimal n) (decimal-AllDigits n))

result_length-decimal :
    (n : ℕ) → n ≤ max_int → result_length (codes "RESULT " ++ decimal n) ≡ some n
unfolding result_length
result_length-decimal n h =
    rw (trim_space-result n, result_length, atoi-decimal n h, text_eq_refl (codes "RESULT"))

-- A result line with the length of a payload, followed by the payload, is read as that payload,
-- and the reader then stands behind it, whatever bytes the payload has.
pub read_result-result :
    (payload more : Text)
    → length payload ≤ max_int
    → read_result ((codes "RESULT " ++ decimal (length payload)) ++ 10 ∷ (payload ++ more))
      ≡ some (payload, more)
unfolding read_result
read_result-result payload more h =
    let n = length payload in
    let line = codes "RESULT " ++ decimal n in
    let line_free : IsFree 10 line =
      IsFree-append 10 (codes "RESULT ") (decimal n)
        (has-IsFree 10 (codes "RESULT ") (unfold has in refl)) (decimal-IsFree 10 n refl) in
    let fits : leb n (length (payload ++ more)) ≡ true =
      ground (arith, length-append payload more) in
    rw (
      read_line-append line (payload ++ more) line_free,
      read_result,
      result_length-decimal n h,
      fits,
      take-length-append payload more,
      drop-length-append payload more,
    )
