-- ===== src/Open/Balance.antt =====
-- What `Open` leaves held, and what `Close` gives back.
use go_oci.Prelude.{
  ◌≡◌, refl, subst, ap, ◌∙◌, Bool, true, false, List, [], ◌∷◌, ◌++◌, Option, none, some, Bytes,
  Outcome, ok, fail, panic, if-tested,
}
use go_oci.Oci.{Sword}
use go_oci.Source.{Dsn, DsnError, parse_dsn}
use go_oci.Open.{Opened, Connection, finish, open_dsn, opened_by, open_driver, close, connect}
use go_oci.Open.Steps.{
  Replies, Progress, going, failed, steps, clean_up, free_strings, string_frees, is_success,
  OpenError,
}
use go_oci.Open.Stages.{At, at, go_on, Reaches}
use go_oci.Open.Reaching.{NoInfo, with_trans, all_held, steps-Reaches}
use go_oci.Open.Ledger.{Resource, Event, and_then, replay, replay-append}

-- All that a connection holds, the last obtained first.
abbrev pub everything : List Resource
everything =
    Resource.trans ∷ Resource.begun ∷ Resource.session ∷ Resource.service ∷ Resource.attached
    ∷ Resource.server ∷ Resource.error ∷ Resource.env ∷ []

-- Where `Open` has come to its end, all that a connection holds is held.
HoldsAll : Progress → Type 0
HoldsAll (failed e o) = Unit
HoldsAll (going o) = replay (free_strings o).log [] ≡ some everything

-- After a failure nothing is held.
HoldsNothing : Progress → Type 0
unfolding clean_up
HoldsNothing (failed e o) = replay ((free_strings o).log ++ clean_up (free_strings o)) [] ≡ some []
HoldsNothing (going o) = Unit

reached-HoldsAll : (I : Type 0) (p : Progress) → Reaches I (At with_trans all_held) p → HoldsAll p
unfolding HoldsAll Reaches replay
reached-HoldsAll I (going _) (at l h) = go_on l (string_frees with_trans) h
reached-HoldsAll I (failed e o) h = tt

reached-HoldsNothing :
    (I : Type 0) (p : Progress) → I → Reaches I (At with_trans all_held) p → HoldsNothing p
unfolding HoldsNothing Reaches
reached-HoldsNothing I (going o) i h = tt
reached-HoldsNothing I (failed e o) i h = h i

steps-HoldsAll : (named cached : Bool) (r : Replies) → HoldsAll (steps named cached r)
steps-HoldsAll named cached r =
    reached-HoldsAll (NoInfo r) (steps named cached r) (steps-Reaches r named cached)

steps-HoldsNothing :
    (named cached : Bool) (r : Replies) → NoInfo r → HoldsNothing (steps named cached r)
steps-HoldsNothing named cached r plain =
    reached-HoldsNothing (NoInfo r) (steps named cached r) plain (steps-Reaches r named cached)

module _ {Location : Type 0} where
  -- What a call of `Open` that returns a connection has to leave: all that a connection holds, and
  -- a connection that is not closed.
  abbrev Gives : List Event → Outcome OpenError (Connection Location) → Type 0
  Gives calls (ok c) = (replay calls [] ≡ some everything) × (c.closed ≡ false)
  Gives calls _ = Unit

  -- What a call of `Open` has to leave: with a connection, all that it holds and a connection that is
  -- not closed; without one, nothing.
  abbrev pub Leaves : List Event → Outcome OpenError (Connection Location) → Type 0
  Leaves calls (ok c) = (replay calls [] ≡ some everything) × (c.closed ≡ false)
  Leaves calls (fail e) = replay calls [] ≡ some []
  Leaves calls panic = replay calls [] ≡ some []

  abbrev pub LeavesOpened : Opened Location → Type 0
  LeavesOpened o = Leaves o.calls o.result

  finish-Gives :
      (dsn : Dsn Location) (p : Progress)
      → HoldsAll p
      → Gives (finish dsn p).calls (finish dsn p).result
  unfolding HoldsAll
  finish-Gives dsn (going o) h = (h, refl)
  finish-Gives dsn (failed e o) h = tt

  finish-Leaves :
      (dsn : Dsn Location) (p : Progress)
      → HoldsAll p
      → HoldsNothing p
      → LeavesOpened (finish dsn p)
  unfolding HoldsAll HoldsNothing
  finish-Leaves dsn (going o) h k = (h, refl)
  finish-Leaves dsn (failed e o) h k = k

  open_dsn-Gives :
      (r : Replies) (dsn : Dsn Location) → Gives (open_dsn r dsn).calls (open_dsn r dsn).result
  unfolding open_dsn
  open_dsn-Gives r dsn =
      if-tested (λ (o : Opened Location). Gives o.calls o.result) (is_success r.env_create)
        (λ _. finish-Gives dsn _ (steps-HoldsAll _ _ r)) (λ _. tt)

  open_dsn-Leaves : (r : Replies) (dsn : Dsn Location) → NoInfo r → LeavesOpened (open_dsn r dsn)
  unfolding open_dsn replay
  open_dsn-Leaves r dsn plain =
      if-tested LeavesOpened (is_success r.env_create)
        (λ _. finish-Leaves dsn _ (steps-HoldsAll _ _ r) (steps-HoldsNothing _ _ r plain))
        (λ h. rw (h, plain.env_create) (refl))

  opened_by-Gives :
      (r : Replies) (d : Outcome DsnError (Dsn Location))
      → Gives (opened_by d (open_dsn r)).calls (opened_by d (open_dsn r)).result
  opened_by-Gives r (ok dsn) = open_dsn-Gives r dsn
  opened_by-Gives r (fail e) = tt
  opened_by-Gives r panic = tt

  opened_by-Leaves :
      (r : Replies) (d : Outcome DsnError (Dsn Location))
      → NoInfo r
      → LeavesOpened (opened_by d (open_dsn r))
  unfolding replay
  opened_by-Leaves r (ok dsn) plain = open_dsn-Leaves r dsn plain
  opened_by-Leaves r (fail e) plain = refl
  opened_by-Leaves r panic plain = refl

  close-everything :
      (end detach : Sword) (c : Connection Location)
      → c.closed ≡ false
      → (replay (close end detach c).1 everything ≡ some [])
        × ((close end detach c).0.closed ≡ true)
  unfolding close replay
  close-everything end detach c h = (rw h (refl), rw h (refl))

  close_again :
      (end detach : Sword) (c : Connection Location)
      → c.closed ≡ true
      → close end detach c ≡ (c, [], Sword.success)
  unfolding close
  close_again end detach c h = rw h (refl)

  -- A connection that `Connect` of the connector returns, which it does whenever the context is not
  -- done, has no handle at all, so that the calls of its `Close` are out of order from the first on.
  close-connect :
      (nil_location : Location) (end detach : Sword)
      → (c : Connection Location) × (connect nil_location false ≡ some c)
        × (c.handles.log ≡ [])
        × (replay (close end detach c).1 [] ≡ none)
  unfolding connect close replay
  close-connect nil_location end detach = (_, refl, refl, refl)

module _ {Location : Type 0} (utc : Location) (load_location : Bytes → Option Location) where
  -- Whatever the string and whatever OCI replies, as long as none of the calls that make the
  -- environment, allocate a handle or attach to the server replies `OCI_SUCCESS_WITH_INFO`: `Open`
  -- obtains and releases in order, where a resource is obtained when OCI replies that the call was
  -- done. Each call is given only what is held at the time, nothing is obtained or released twice, and
  -- nothing is released that something else still needs. With an error nothing is left, also not the
  -- C strings; without one, all that a connection holds.
  pub open_driver-Leaves :
      (r : Replies) (s : Bytes) → NoInfo r → LeavesOpened (open_driver utc load_location r s)
  unfolding open_driver
  open_driver-Leaves r s plain = opened_by-Leaves r (parse_dsn utc load_location s) plain

  open_driver-Gives :
      (r : Replies) (s : Bytes)
      → Gives (open_driver utc load_location r s).calls (open_driver utc load_location r s).result
  unfolding open_driver
  open_driver-Gives r s = opened_by-Gives r (parse_dsn utc load_location s)

  -- A connection that `Open` has returned and that is closed, whatever the calls of `Close` return:
  -- all that was obtained has been released, in order, and closing again makes no call and returns
  -- no error.
  pub close-open_driver :
      (r : Replies) (s : Bytes) (c : Connection Location) (end detach end' detach' : Sword)
      → (open_driver utc load_location r s).result ≡ ok c
      → (replay ((open_driver utc load_location r s).calls ++ (close end detach c).1) [] ≡ some [])
        × ((close end' detach' (close end detach c).0).1 ≡ [])
        × ((close end' detach' (close end detach c).0).2 ≡ Sword.success)
  close-open_driver r s c end detach end' detach' h =
      let o = open_driver utc load_location r s in
      let (all, open_now) = subst (Gives o.calls) h (open_driver-Gives r s) in
      let (gone, closed) = close-everything end detach c open_now in
      let again = close_again end' detach' (close end detach c).0 closed in
      (
        replay-append o.calls (close end detach c).1 []
            ∙ ap (λ l. and_then l (replay (close end detach c).1)) all
            ∙ gone,
        ap (λ x. x.1) again,
        ap (λ x. x.2) again,
      )
