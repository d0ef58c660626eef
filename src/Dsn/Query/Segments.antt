-- ===== src/Dsn/Query/Segments.antt =====
-- What `Encode` writes: one segment for each pair, glued together by `&`; and the pieces that
-- `ParseQuery` finds in it.
use go_oci.Prelude.{
  ℕ, map, ◌≡◌, ◌≢◌, refl, ap, sym, ◌∙◌, true, ◌||◌, Bool-cases, List, [], ◌∷◌, ◌++◌, append_assoc,
  Bytes, IsBytes, Lacks, All, All-append, length, lt→ltb, if◌then◌else◌, ◌==◌, ltb, ok, arith, inl,
  inr,
}
use go_oci.Dsn.Byte.{query_component, should_escape}
use go_oci.Dsn.Escape.{query_escape}
use go_oci.Dsn.Escape.Encode.{escape-encode}
use go_oci.Dsn.Escape.Lacks.{NeverWrites, encode-Lacks}
use go_oci.Dsn.Escape.Spec.{bad_escape, meaning}
use go_oci.Dsn.Escape.Spec
use go_oci.Dsn.Values.{Table, write_values, write_table}
use go_oci.Dsn.Query.{Parsed}
use go_oci.Dsn.Query.Pieces.{pieces, visit, visit_all, visit_all_nil}

-- One pair as it is written.
abbrev pub segment : Bytes → Bytes → Bytes
segment k v = Spec.encode k query_component ++ b'=' ∷ Spec.encode v query_component

unfoldable pub segments : Table → List Bytes
segments [] = []
segments ((k, vs) ∷ m) = map (segment k) vs ++ segments m

-- A segment behind those that the buffer holds.
abbrev pub glue : Bytes → Bytes → Bytes
glue buf s = (if ltb 0 (length buf) then buf ++ b'&' ∷ [] else buf) ++ s

abbrev pub glue_all : Bytes → List Bytes → Bytes
glue_all buf [] = buf
glue_all buf (s ∷ ss) = glue_all (glue buf s) ss

glue_all-append :
    (ss ts : List Bytes) (buf : Bytes) → glue_all buf (ss ++ ts) ≡ glue_all (glue_all buf ss) ts
glue_all-append [] ts buf = refl
glue_all-append (s ∷ ss) ts buf = glue_all-append ss ts (glue buf s)

query_escape-encode : (s : Bytes) → IsBytes s → query_escape s ≡ ok (Spec.encode s query_component)
unfolding query_escape
query_escape-encode s h = escape-encode s query_component h

-- Every key and every value of a map is a string of bytes.
abbrev pub AreBytes : Table → Type 0
AreBytes = All (λ e. IsBytes e.0 × All IsBytes e.1)

write_values-glue_all :
    (k : Bytes) (vs : List Bytes) (buf : Bytes)
    → All IsBytes vs
    → write_values (Spec.encode k query_component ++ b'=' ∷ []) vs buf
      ≡ ok (glue_all buf (map (segment k) vs))
unfolding write_values
write_values-glue_all k [] buf h = refl
write_values-glue_all k (v ∷ vs) buf (hv, hvs) =
    rw (query_escape-encode v hv, append_assoc)
      (write_values-glue_all k vs (glue buf (segment k v)) hvs)

pub write_table-glue_all :
    (m : Table) (buf : Bytes) → AreBytes m → write_table m buf ≡ ok (glue_all buf (segments m))
unfolding write_table segments
write_table-glue_all [] buf h = refl
write_table-glue_all ((k, vs) ∷ m) buf ((hk, hvs), hm) =
    rw (query_escape-encode k hk, write_values-glue_all k vs buf hvs, glue_all-append)
      (write_table-glue_all m (glue_all buf (map (segment k) vs)) hm)

-- The pieces of what is glued together.
pieces-cons : (b : Bytes) → (p : Bytes) × (ps : List Bytes) × (pieces b ≡ p ∷ ps)
unfolding pieces
pieces-cons [] = ([], [], refl)
pieces-cons (c ∷ b) = elim (Bool-cases (c == b'&' || c == b';')) [
  | inl e ↦ ([], pieces b, rw e)
  | inr e ↦ let (p, ps, h) = pieces-cons b in (c ∷ p, ps, rw (e, h))
]

pieces-append : (b s : Bytes) → pieces (b ++ b'&' ∷ s) ≡ pieces b ++ pieces s
unfolding pieces
pieces-append [] s = refl
pieces-append (c ∷ b) s = elim (Bool-cases (c == b'&' || c == b';')) [
  | inl e ↦ rw (e, pieces-append b s)
  | inr e ↦ let (p, ps, h) = pieces-cons b in rw (e, pieces-append b s, h)
]

pieces_self : (s : Bytes) → Lacks b'&' s → Lacks b';' s → pieces s ≡ s ∷ []
unfolding pieces
pieces_self [] ha hs = refl
pieces_self (c ∷ s) (ca, ha) (cs, hs) = ground (arith, pieces_self s ha hs)

pub visit_all-append :
    (ps qs : List Bytes) (acc : Parsed) → visit_all acc (ps ++ qs) ≡ visit_all (visit_all acc ps) qs
unfolding visit_all
visit_all-append [] qs acc = refl
visit_all-append (p ∷ ps) qs acc = visit_all-append ps qs (visit acc p)

-- A segment is one piece.
abbrev pub IsPiece : Bytes → Type 0
IsPiece s = Lacks b'&' s × Lacks b';' s

visit_all-glue :
    (buf s : Bytes) (acc : Parsed)
    → IsPiece s
    → visit_all acc (pieces (glue buf s)) ≡ visit (visit_all acc (pieces buf)) s
unfolding visit_all
visit_all-glue [] s acc (ha, hs) = rw (pieces_self s ha hs, visit_all_nil)
visit_all-glue (c ∷ b) s acc (ha, hs) =
    let long : ltb 0 (length (c ∷ b)) ≡ true = lt→ltb 0 _ (omega arith) in
    let glued : glue (c ∷ b) s ≡ (c ∷ b) ++ b'&' ∷ s =
      rw long (append_assoc (c ∷ b) (b'&' ∷ []) s) in
    rw (glued, pieces-append (c ∷ b) s, visit_all-append, pieces_self s ha hs)

pub visit_all-glue_all :
    (ss : List Bytes) (buf : Bytes) (acc : Parsed)
    → All IsPiece ss
    → visit_all acc (pieces (glue_all buf ss)) ≡ visit_all (visit_all acc (pieces buf)) ss
unfolding visit_all
visit_all-glue_all [] buf acc h = refl
visit_all-glue_all (s ∷ ss) buf acc (hs, hss) =
    visit_all-glue_all ss (glue buf s) acc hss
    ∙ ap (λ x. visit_all x ss) (visit_all-glue buf s acc hs)

encode-IsPiece : (s : Bytes) → IsBytes s → IsPiece (Spec.encode s query_component)
unfolding Spec.encode_byte should_escape
encode-IsPiece s h =
    (encode-Lacks query_component b'&' s refl h, encode-Lacks query_component b';' s refl h)

pub segment-IsPiece : (k v : Bytes) → IsBytes k → IsBytes v → IsPiece (segment k v)
segment-IsPiece k v hk hv =
    let (ka, ks) = encode-IsPiece k hk in
    let (va, vs) = encode-IsPiece v hv in
    (
      All-append (λ x. x ≢ b'&') _ _ ka (omega arith, va),
      All-append (λ x. x ≢ b';') _ _ ks (omega arith, vs),
    )

values-IsPiece :
    (k : Bytes) (vs : List Bytes) → IsBytes k → All IsBytes vs → All IsPiece (map (segment k) vs)
values-IsPiece k [] hk hvs = tt
values-IsPiece k (v ∷ vs) hk (hv, hvs) = (segment-IsPiece k v hk hv, values-IsPiece k vs hk hvs)

pub segments-IsPiece : (m : Table) → AreBytes m → All IsPiece (segments m)
unfolding segments
segments-IsPiece [] h = tt
segments-IsPiece ((k, vs) ∷ m) ((hk, hvs), hm) =
    All-append IsPiece _ _ (values-IsPiece k vs hk hvs) (segments-IsPiece m hm)

glue-Lacks : (b : ℕ) (buf s : Bytes) → b ≢ b'&' → Lacks b s → Lacks b buf → Lacks b (glue buf s)
glue-Lacks b [] s and hs h = hs
glue-Lacks b (c ∷ buf) s and hs h =
    let long : ltb 0 (length (c ∷ buf)) ≡ true = lt→ltb 0 _ (omega arith) in
    rw long (
      All-append (λ x. x ≢ b) (c ∷ buf ++ b'&' ∷ []) s
        (All-append (λ x. x ≢ b) (c ∷ buf) (b'&' ∷ []) h ((λ e. and (sym e)), tt)) hs)

-- A byte that is never written, and is neither `&` nor `=`, does not show up.
pub glue_all-Lacks :
    (b : ℕ) (ss : List Bytes) (buf : Bytes)
    → b ≢ b'&'
    → All (Lacks b) ss
    → Lacks b buf
    → Lacks b (glue_all buf ss)
glue_all-Lacks b [] buf and hs h = h
glue_all-Lacks b (s ∷ ss) buf and (hs, hss) h =
    glue_all-Lacks b ss (glue buf s) and hss (glue-Lacks b buf s and hs h)

segment-Lacks :
    (b : ℕ) (k v : Bytes)
    → NeverWrites query_component b
    → b ≢ b'='
    → IsBytes k
    → IsBytes v
    → Lacks b (segment k v)
segment-Lacks b k v never eq hk hv =
    All-append (λ x. x ≢ b) _ _ (encode-Lacks query_component b k never hk)
      ((λ e. eq (sym e)), encode-Lacks query_component b v never hv)

values-Lacks :
    (b : ℕ) (k : Bytes) (vs : List Bytes)
    → NeverWrites query_component b
    → b ≢ b'='
    → IsBytes k
    → All IsBytes vs
    → All (Lacks b) (map (segment k) vs)
values-Lacks b k [] never eq hk hvs = tt
values-Lacks b k (v ∷ vs) never eq hk (hv, hvs) =
    (segment-Lacks b k v never eq hk hv, values-Lacks b k vs never eq hk hvs)

pub segments-Lacks :
    (b : ℕ) (m : Table)
    → NeverWrites query_component b
    → b ≢ b'='
    → AreBytes m
    → All (Lacks b) (segments m)
unfolding segments
segments-Lacks b [] never eq h = tt
segments-Lacks b ((k, vs) ∷ m) never eq ((hk, hvs), hm) =
    All-append (Lacks b) _ _ (values-Lacks b k vs never eq hk hvs) (segments-Lacks b m never eq hm)
