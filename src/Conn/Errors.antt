-- ===== src/Conn/Errors.antt =====
-- When a result of OCI is an error, and when the connection is given up.
use go_oci.Prelude.{
  ℕ, ◌==◌, if◌then◌else◌, ap, ==→eq, ◌≡◌, ◌≢◌, ◌↔◌, ◌⊎◌, refl, sym, subst, inl, inr, Bool, true,
  false, Bytes, Outcome, ok, fail, panic, ◌>>=◌, arith,
}
use go_oci.Prelude.Int.{ℤ, pos, negsuc}
use go_oci.Oci.{Sword}
use go_oci.Conn.{
  answered, ping, after_ping, ConnError, bad_conn, ora_error, Diagnostic, c_text, oci_get_error,
  is_bad_code, get_error, code_and_text, lost_or,
}

-- The errors of Oracle that the list in `getError` names: ORA-00028, your session has been killed;
-- 01012, not logged on; 01033, initialization or shutdown in progress; 01034, not available; 01089,
-- immediate shutdown in progress; 03113, end-of-file on communication channel; 03114, not connected;
-- 03135, connection lost contact; 12528, all appropriate instances are blocking new connections;
-- 12537, connection closed.
abbrev pub IsBadConnection : ℤ → Type 0
IsBadConnection c =
    (c ≡ pos 28)
    ⊎ (c ≡ pos 1012)
    ⊎ (c ≡ pos 1033)
    ⊎ (c ≡ pos 1034)
    ⊎ (c ≡ pos 1089)
    ⊎ (c ≡ pos 3113)
    ⊎ (c ≡ pos 3114)
    ⊎ (c ≡ pos 3135)
    ⊎ (c ≡ pos 12528)
    ⊎ (c ≡ pos 12537)

-- The connection is lost: `OCIErrorGet` fails, or its code is one of those of a lost connection.
abbrev pub IsLost : Diagnostic → Type 0
IsLost d = (d.result ≢ Sword.success) ⊎ IsBadConnection d.code

is_bad_code-IsBadConnection : (c : ℤ) → (is_bad_code c ≡ true) ↔ IsBadConnection c
is_bad_code-IsBadConnection (pos n) = ground arith
is_bad_code-IsBadConnection (negsuc n) = ground arith

lost_or-nil :
    (r : Sword) (n : ℤ) (text : Outcome ConnError Bytes)
    → (code_and_text r n text >>= λ (code, e). lost_or (is_bad_code code) e) ≢ ok tt
lost_or-nil Sword.success n (ok t) e = lost_or-fail (is_bad_code n) (ora_error t) e
  where
    lost_or-fail : (b : Bool) (e : ConnError) → lost_or b e ≢ ok tt
    lost_or-fail true e h = cc
    lost_or-fail false e h = cc
lost_or-nil Sword.success n (fail e') e = cc
lost_or-nil Sword.success n panic e = cc
lost_or-nil _ n text e = cc

lost_or-bad_conn :
    (r : Sword) (n : ℤ) (t : Bytes)
    → ((code_and_text r n (ok t) >>= λ (code, e). lost_or (is_bad_code code) e) ≡ fail bad_conn)
      ↔ ((r ≢ Sword.success) ⊎ IsBadConnection n)
lost_or-bad_conn Sword.success n t = lost_or-iff (is_bad_code n) (is_bad_code-IsBadConnection n)
  where
    lost_or-iff :
        (b : Bool) {A : Type 0}
        → (b ≡ true) ↔ A
        → (lost_or b (ora_error t) ≡ fail bad_conn) ↔ ((Sword.success ≢ Sword.success) ⊎ A)
    lost_or-iff true (to, from) = (λ h. inr (to refl), λ h. refl)
    lost_or-iff false (to, from) = (
      λ h. absurd cc,
      λ h. elim h [ inl n ↦ absurd (n refl) | inr a ↦ let e = from a in absurd cc ],
    )
lost_or-bad_conn _ n t = (λ h. inl (λ e. cc), λ h. refl)

-- `getError` returns no error for `OCI_SUCCESS`, and an error or a panic for every other result.
pub get_error-nil : (r : Sword) (d : Diagnostic) → (get_error r d ≡ ok tt) ↔ (r ≡ Sword.success)
unfolding get_error oci_get_error
get_error-nil Sword.oci_error d =
    (λ h. absurd (lost_or-nil d.result d.code (c_text d.text) h), λ h. absurd cc)
get_error-nil r d = ground arith

-- Where the text of the error ends with a byte 0, `getError` returns `ErrBadConn` exactly when the
-- result is `OCI_ERROR` and either `OCIErrorGet` fails or the code is one of 28, 1012, 1033, 1034,
-- 1089, 3113, 3114, 3135, 12528 and 12537.
pub get_error-bad_conn :
    (r : Sword) (d : Diagnostic) (t : Bytes)
    → c_text d.text ≡ ok t
    → (get_error r d ≡ fail bad_conn) ↔ ((r ≡ Sword.oci_error) × IsLost d)
unfolding get_error oci_get_error
get_error-bad_conn Sword.oci_error d t h =
    let (to, from) = lost_or-bad_conn d.result d.code t in
    subst
      (λ text.
        ((code_and_text d.result d.code text >>= λ (code, e). lost_or (is_bad_code code) e)
          ≡ fail bad_conn)
        ↔ ((Sword.oci_error ≡ Sword.oci_error) × IsLost d))
      (sym h) (λ e. (refl, to e), λ (_, lost). from lost)
get_error-bad_conn r d t h = ground arith

pos_1010 :
    (n : ℕ) (b : Bool)
    → (n == 1010) ≡ b
    → ((if b then ok tt else fail bad_conn) ≡ ok (tt {0})) ↔ (pos n ≡ pos 1010)
pos_1010 n true h = (λ e. ap pos (==→eq n 1010 h), λ e. refl)
pos_1010 n false h = (λ e. absurd cc, λ e. absurd (ground (arith, h)))

after_ping-ok : (n : ℤ) → (after_ping n ≡ ok tt) ↔ (n ≡ pos 1010)
after_ping-ok (pos n) = pos_1010 n (n == 1010) refl
after_ping-ok (negsuc n) = (λ e. absurd cc, λ e. absurd cc)

-- The answer of the server lets `Ping` succeed: the ping does, or its error is ORA-01010.
abbrev pub IsAlive : Sword → Diagnostic → Type 0
IsAlive r d =
    (r ≡ Sword.success)
    ⊎ ((r ≡ Sword.success_with_info) ⊎ ((d.result ≡ Sword.success) × (d.code ≡ pos 1010)))

asked :
    (r : Sword) (n : ℤ) (t : Bytes)
    → ((code_and_text r n (ok t) >>= λ (code, e). after_ping code) ≡ ok tt)
      ↔ ((r ≡ Sword.success) × (n ≡ pos 1010))
asked Sword.success n t = let (to, from) = after_ping-ok n in (λ e. (refl, to e), λ (_, e). from e)
asked _ n t = (λ e. absurd cc, λ (e, _). absurd cc)

answered_iff :
    {x y : Outcome ConnError (Unit {0})} {A B : Type 0}
    → (x ≡ y) ↔ A
    → (B → A)
    → (A → B)
    → (answered x ≡ answered y) ↔ B
answered_iff (to, from) f g = (λ e. g (to cc), λ b. ap answered (from (f b)))

third :
    (r : Sword) (d : Diagnostic)
    → r ≢ Sword.success
    → r ≢ Sword.success_with_info
    → IsAlive r d
    → (d.result ≡ Sword.success) × (d.code ≡ pos 1010)
third r d n m (inl e) = absurd (n e)
third r d n m (inr (inl e)) = absurd (m e)
third r d n m (inr (inr x)) = x

-- Where the text of the error ends with a byte 0 and the context is not done, `Ping` returns no
-- error exactly when the ping succeeds, with information or without, or the error is ORA-01010.
ping-answered :
    (r : Sword) (d : Diagnostic) (t : Bytes)
    → c_text d.text ≡ ok t
    → (ping false r d ≡ answered (ok tt)) ↔ IsAlive r d
unfolding ping oci_get_error
ping-answered Sword.success d t h = (λ e. inl refl, λ e. refl)
ping-answered Sword.success_with_info d t h = (λ e. inr (inl refl), λ e. refl)
ping-answered r d t h =
    subst
      (λ text.
        (answered (code_and_text d.result d.code text >>= λ (code, e). after_ping code)
          ≡ answered (ok tt))
        ↔ IsAlive r d)
      (sym h)
      (answered_iff (asked d.result d.code t) (third r d (λ e. cc) (λ e. cc)) (λ x. inr (inr x)))
