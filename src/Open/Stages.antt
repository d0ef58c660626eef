-- ===== src/Open/Stages.antt =====
-- oci8.go: what each stage of `Open` holds, and that an error in it leaves nothing.
use go_oci.Prelude.{◌≡◌, ap, ◌∙◌, false, List, [], ◌∷◌, ◌++◌, append-nil, append_assoc, some}
use go_oci.Oci.{Sword}
use go_oci.Open.Steps
use go_oci.Open.Steps.{
  Replies, Opening, Progress, going, failed, ◌then◌, called, replied, logged, with_env, is_success,
  is_success_or_info, has_info, free_strings, string_frees, clean_up, steps, OpenError,
}
use go_oci.Open.Ledger.{Resource, Attribute, Event, and_then, replay, replay-append}

-- The calls that an error or a return in a stage leads to, and those of an error alone.
abbrev pub undoes : Opening → List Event
unfolding clean_up
undoes fl = string_frees fl ++ clean_up fl

-- A stage: the flags are those of `fl`, and the calls have left `held`.
pub data At (fl : Opening) (held : List Resource) : Opening → Type 0 where
  at : (l : List Event) → replay l [] ≡ some held → At fl held (record fl { log = l })

-- Calls after which something is held go on from there.
pub go_on :
    {held : List Resource} (l more : List Event)
    → replay l [] ≡ some held
    → replay (l ++ more) [] ≡ replay more held
go_on l more h = replay-append l more [] ∙ ap (λ r. and_then r (replay more)) h

-- `Open` has reached a stage, or it has failed and nothing is left, where `I` holds.
unfoldable pub Reaches : Type 0 → (Opening → Type 0) → Progress → Type 0
unfolding clean_up
Reaches I Q (going o) = Q o
Reaches I Q (failed e o) =
    I → replay ((free_strings o).log ++ clean_up (free_strings o)) [] ≡ some []

-- An error in a stage whose calls are undone by what is deferred.
undone :
    (fl : Opening) (held : List Resource) (l : List Event)
    → replay l [] ≡ some held
    → replay (undoes fl) held ≡ some []
    → replay ((l ++ string_frees fl) ++ clean_up fl) [] ≡ some []
unfolding clean_up
undone fl held l h k =
    ap (λ es. replay es []) (append_assoc l (string_frees fl) (clean_up fl))
    ∙ go_on l (undoes fl) h
    ∙ k

module _ (I : Type 0) where
  pub then-Reaches :
      (P Q : Opening → Type 0) (p : Progress) (f : Opening → Progress)
      → Reaches I P p
      → ((o : Opening) → P o → Reaches I Q (f o))
      → Reaches I Q (p then f)
  unfolding Reaches
  then-Reaches P Q (going o) f h k = k o h
  then-Reaches P Q (failed e o) f h k = h

  -- A call that obtains something, as `Open` tests it.
  pub acquire-At :
      (r : Sword) (x : Resource) (e : OpenError) (fl fl' : Opening) {held held' : List Resource}
      → (I → has_info r ≡ false)
      → replay (Event.obtained x ∷ []) held ≡ some held'
      → replay (undoes fl) held ≡ some []
      → (o : Opening) → At fl held o
      → Reaches I
          (At fl' held')
          (called (is_success r) e (replied r x o) (record fl' { log = (replied r x o).log }))
  unfolding Reaches clean_up
  acquire-At Sword.success x e fl fl' plain k u _ (at l h) =
      at (l ++ Event.obtained x ∷ []) (go_on l _ h ∙ k)
  acquire-At Sword.success_with_info x e fl fl' plain k u _ (at l h) =
      λ i. let said = plain i in absurd cc
  acquire-At r x e fl fl' plain k u _ (at l h) =
      λ i. undone fl _ (l ++ []) (ap (λ es. replay es []) (append-nil l) ∙ h) u

  -- The start of the session, which may also succeed with information.
  pub begin-At :
      (r : Sword) (x : Resource) (e : OpenError) (fl fl' : Opening) {held held' : List Resource}
      → replay (Event.obtained x ∷ []) held ≡ some held'
      → replay (undoes fl) held ≡ some []
      → (o : Opening) → At fl held o
      → Reaches I (At fl' held') (
          called
            (is_success_or_info r)
            e
            (replied r x o)
            (record fl' { log = (replied r x o).log }))
  unfolding Reaches clean_up
  begin-At Sword.success x e fl fl' k u _ (at l h) =
      at (l ++ Event.obtained x ∷ []) (go_on l _ h ∙ k)
  begin-At Sword.success_with_info x e fl fl' k u _ (at l h) =
      at (l ++ Event.obtained x ∷ []) (go_on l _ h ∙ k)
  begin-At r x e fl fl' k u _ (at l h) =
      λ i. undone fl _ (l ++ []) (ap (λ es. replay es []) (append-nil l) ∙ h) u

  -- A call that sets an attribute.
  pub set-At :
      (a : Attribute) (s : Steps.Stage) (r : Sword) (fl : Opening) {held : List Resource}
      → replay (Event.sets a ∷ []) held ≡ some held
      → replay (undoes fl) held ≡ some []
      → (o : Opening) → At fl held o
      → Reaches I (At fl held) (Steps.set_attribute a s r o)
  unfolding Reaches clean_up Steps.set_attribute
  set-At a s Sword.success fl k u _ (at l h) = at (l ++ Event.sets a ∷ []) (go_on l _ h ∙ k)
  set-At a s r fl k u _ (at l h) = λ i. undone fl _ (l ++ Event.sets a ∷ []) (go_on l _ h ∙ k) u
