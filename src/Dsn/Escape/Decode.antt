-- ===== src/Dsn/Escape/Decode.antt =====
-- `unescape` against its specification: the two loops agree on the size of the buffer, so no
-- write and no read is out of range.
use go_oci.Prelude.{
  ℕ, ◌+◌, ◌-◌, ◌*◌, ◌%◌, ◌<◌, bit_or, ◌≡◌, refl, sym, ap, ◌∙◌, Bool, true, false, not, ◌&&◌, none,
  [], ◌∷◌, ◌++◌, append-nil, append_assoc, Bytes, length, replicate, set-append_length,
  length-append, ltb, lt→ltb, Option-cases, ◌==◌, if◌then◌else◌, Bool-cases, ok, ◌>>=◌, inl, inr,
  arith,
}
use go_oci.Dsn.Byte.{Encoding, is_query, is_hex, unhex}
use go_oci.Dsn.Byte.Table.{all_below, all_below_sound}
use go_oci.Dsn.Escape.{Escaped, put, count_percent, unescaped_byte, fill, unescape}
use go_oci.Dsn.Escape.Spec.{bad_escape, plain, meaning, unless_bad, decode}

-- A write behind what is done.
pub put_behind :
    (done mid rest : Bytes) (x v j : ℕ)
    → j ≡ length done + length mid
    → put (done ++ (mid ++ x ∷ rest)) j v ≡ ok (done ++ (mid ++ v ∷ rest))
unfolding put
put_behind done mid rest x v j h =
    let place : j ≡ length (done ++ mid) = omega (arith, length-append done mid) in
    let fits : ltb (length (done ++ mid)) (length ((done ++ mid) ++ x ∷ rest)) ≡ true =
      lt→ltb _ _ (omega (arith, length-append (done ++ mid) (x ∷ rest))) in
    rw (place, ← append_assoc, fits, set-append_length (done ++ mid) rest x v, append_assoc)

-- The same, and the loop's next round.
pub put_next :
    (f : Bytes → ℕ → Escaped Bytes) (done rest : Bytes) (x v : ℕ)
    → (put (done ++ x ∷ rest) (length done) v >>= λ t. f t (length done + 1))
      ≡ f ((done ++ v ∷ []) ++ rest) (length (done ++ v ∷ []))
put_next f done rest x v = rw (
  put_behind done [] rest x v (length done) (omega arith),
  length-append done (v ∷ []),
  append_assoc,
)

or_table : all_below 16 (λ h. all_below 16 (λ l. bit_or (h * 16 % 256) l == h * 16 + l)) ≡ true
or_table = refl

unhex-lt : (c : ℕ) → unhex c < 16
unfolding unhex
unhex-lt c = ground arith

join-nibbles : (h l : ℕ) → h < 16 → l < 16 → bit_or (h * 16 % 256) l ≡ h * 16 + l
join-nibbles h l hh hl =
    let row =
      all_below_sound 16 (λ x. all_below 16 (λ y. bit_or (x * 16 % 256) y == x * 16 + y)) h or_table
        hh in
    let cell = all_below_sound 16 (λ y. bit_or (h * 16 % 256) y == h * 16 + y) l row hl in
    ground arith

unescaped_byte-plain : (mode : Encoding) (c : ℕ) → unescaped_byte mode c ≡ plain mode c
unfolding unescaped_byte plain
unescaped_byte-plain mode c = ground arith

-- The number of escapes and the last value of `hasPlus`.
escapes : Bytes → ℕ
escapes [] = 0
escapes (c ∷ []) = 0
escapes (c ∷ a ∷ []) = 0
escapes (c ∷ a ∷ b ∷ s) =
    let three = escapes s in let one = escapes (a ∷ b ∷ s) in if c == b'%' then three + 1 else one

last_plus : Encoding → Bytes → Bool → Bool
last_plus mode [] p = p
last_plus mode (c ∷ []) p = if c == b'+' then is_query mode else p
last_plus mode (c ∷ a ∷ []) p = last_plus mode (a ∷ []) (if c == b'+' then is_query mode else p)
last_plus mode (c ∷ a ∷ b ∷ s) p =
    let three = last_plus mode s p in
    let one = last_plus mode (a ∷ b ∷ s) (if c == b'+' then is_query mode else p) in
    if c == b'%' then three else one

count_percent_lem :
    (mode : Encoding) (s : Bytes) (n : ℕ) (p : Bool)
    → count_percent mode s n p ≡ unless_bad (bad_escape s) (n + escapes s, last_plus mode s p)
unfolding count_percent bad_escape escapes last_plus
count_percent_lem mode [] n p = ground arith
count_percent_lem mode (c ∷ []) n p = ground arith
count_percent_lem mode (c ∷ a ∷ []) n p = ground arith
count_percent_lem mode (c ∷ a ∷ b ∷ s) n p = elim (Bool-cases (c == b'%')) [
  | inl e ↦ elim (Bool-cases (is_hex a)) [
    | inr na ↦ rw (e, na)
    | inl ha ↦ elim (Bool-cases (is_hex b)) [
      | inr nb ↦ rw (e, ha, nb)
      | inl hb ↦
          let sum : n + 1 + escapes s ≡ n + (escapes s + 1) = omega arith in
          rw (e, ha, hb) (count_percent_lem mode s (n + 1) p ∙ rw sum)
    ]
  ]
  | inr e ↦ rw e (count_percent_lem mode (a ∷ b ∷ s) n (if c == b'+' then is_query mode else p))
]

length-meaning :
    (mode : Encoding) (s : Bytes)
    → bad_escape s ≡ none
    → length (meaning mode s) + 2 * escapes s ≡ length s
unfolding meaning escapes bad_escape
length-meaning mode [] h = omega arith
length-meaning mode (c ∷ []) h = omega arith
length-meaning mode (c ∷ a ∷ []) h = omega arith
length-meaning mode (c ∷ a ∷ b ∷ s) h =
    ground (arith, length-meaning mode s, length-meaning mode (a ∷ b ∷ s))

last_plus-query :
    (mode : Encoding) (s : Bytes) → is_query mode ≡ true → last_plus mode s true ≡ true
unfolding last_plus
last_plus-query mode [] q = refl
last_plus-query mode (c ∷ []) q = ground arith
last_plus-query mode (c ∷ a ∷ []) q = ground arith
last_plus-query mode (c ∷ a ∷ b ∷ s) q =
    ground (arith, last_plus-query mode s q, last_plus-query mode (a ∷ b ∷ s) q)

-- Without an escape, and without a plus sign that stands for a space, the string means itself.
meaning_self :
    (mode : Encoding) (s : Bytes)
    → bad_escape s ≡ none
    → escapes s ≡ 0
    → last_plus mode s false ≡ false
    → meaning mode s ≡ s
unfolding meaning escapes bad_escape last_plus plain
meaning_self mode [] h z l = refl
meaning_self mode (c ∷ []) h z l = ground arith
meaning_self mode (c ∷ a ∷ []) h z l = ground arith
meaning_self mode (c ∷ a ∷ b ∷ s) h z l =
    ground (arith, meaning_self mode (a ∷ b ∷ s), last_plus-query mode (a ∷ b ∷ s))

fill_lem :
    (mode : Encoding) (s done : Bytes)
    → bad_escape s ≡ none
    → fill mode s (done ++ replicate (length (meaning mode s)) 0) (length done)
      ≡ ok (done ++ meaning mode s)
unfolding fill meaning bad_escape
fill_lem mode [] done h = rw append-nil
fill_lem mode (c ∷ []) done h = elim (Bool-cases (c == b'%')) [
  | inl e ↦ absurd (ground arith)
  | inr e ↦
      rw (e, unescaped_byte-plain)
        (put_next (fill mode []) done [] 0 (plain mode c) ∙ rw append-nil)
]
fill_lem mode (c ∷ a ∷ []) done h = elim (Bool-cases (c == b'%')) [
  | inl e ↦ absurd (ground arith)
  | inr e ↦
      rw (e, unescaped_byte-plain)
        (put_next (fill mode (a ∷ [])) done (0 ∷ []) 0 (plain mode c)
          ∙ fill_lem mode (a ∷ []) (done ++ plain mode c ∷ []) (ground arith)
          ∙ ap ok (append_assoc done _ _))
]
fill_lem mode (c ∷ a ∷ b ∷ s) done h = elim (Bool-cases (c == b'%')) [
  | inl e ↦
      rw (e, join-nibbles (unhex a) (unhex b) (unhex-lt a) (unhex-lt b))
        (put_next (fill mode s) done (replicate (length (meaning mode s)) 0) 0
            (unhex a * 16 + unhex b)
          ∙ fill_lem mode s (done ++ (unhex a * 16 + unhex b) ∷ []) (ground arith)
          ∙ ap ok (append_assoc done _ _))
  | inr e ↦
      rw (e, unescaped_byte-plain)
        (put_next (fill mode (a ∷ b ∷ s)) done (replicate (length (meaning mode (a ∷ b ∷ s))) 0) 0
            (plain mode c)
          ∙ fill_lem mode (a ∷ b ∷ s) (done ++ plain mode c ∷ []) (ground arith)
          ∙ ap ok (append_assoc done _ _))
]

pub decode_ok :
    (s : Bytes) (mode : Encoding) → bad_escape s ≡ none → decode s mode ≡ ok (meaning mode s)
unfolding decode
decode_ok s mode good = rw (good, decode)

-- For every string and every mode the two loops of `unescape` do what the one-pass decoder does:
-- they return its meaning, or the first malformed escape as the error, and they never panic.
pub unescape-decode : (s : Bytes) (mode : Encoding) → unescape s mode ≡ decode s mode
unfolding unescape decode
unescape-decode s mode = elim (Option-cases (bad_escape s)) [
  | inr (e, bad) ↦ rw (count_percent_lem mode s 0 false, bad, decode)
  | inl good ↦
      rw (count_percent_lem mode s 0 false, good, decode)
        (elim (Bool-cases (0 + escapes s == 0 && not (last_plus mode s false))) [
          | inl none_there ↦
              rw none_there (ap ok (sym (meaning_self mode s good (ground arith) (ground arith))))
          | inr some_there ↦
              let size : length s - 2 * (0 + escapes s) ≡ length (meaning mode s) =
                omega (arith, length-meaning mode s good) in
              rw (some_there, size) (fill_lem mode s [] good)
        ])
]
