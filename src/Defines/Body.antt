-- ===== src/Defines/Body.antt =====
-- What the body of the loop of `makeDefines` adds to what is held.
use go_oci.Prelude.{
  ℕ, ◌≡◌, ◌≢◌, sym, ap, ◌∙◌, not, ◌&&◌, some, List, [], ◌∷◌, ◌++◌, append-nil, append_assoc,
  if-both,
}
use go_oci.Oci.{Sqlt}
use go_oci.Column.{Define, define_column}
use go_oci.Column.Buffers.{define_column-Undoes}
use go_oci.Blocks.{
  got_param, obtained, Block, Held, replay, buffer_slot, blocks_of, obtain_counters,
}
use go_oci.Blocks.Laws.{IsFreeable, Undoes-undoes}
use go_oci.Defines.{
  Script, DefineError, Step, stopped, is_success, blank, counted, may_fail, is_number, bind_buffer,
  switch_type, step, params_after, entry_of, calls_of,
}

abbrev pub holding : List Block → List ℕ → Held
holding bs ps = record { blocks = bs; params = ps }

-- The body of the loop adds what the entry owns to what is held.
unfoldable pub IsStep : List Block → List ℕ → Step → Type 0
IsStep bs ps st =
    (replay (calls_of st) (holding bs ps)
      ≡ some (holding (bs ++ blocks_of (entry_of st)) (params_after (calls_of st) ps)))
    × IsFreeable (entry_of st).buffer

two_more : (bs : List Block) (x y : Block) → (bs ++ x ∷ []) ++ y ∷ [] ≡ bs ++ x ∷ y ∷ []
two_more bs x y = append_assoc bs (x ∷ []) (y ∷ [])

three_more :
    (bs : List Block) (x y z : Block) → ((bs ++ x ∷ []) ++ y ∷ []) ++ z ∷ [] ≡ bs ++ x ∷ y ∷ z ∷ []
three_more bs x y z =
    append_assoc (bs ++ x ∷ []) (y ∷ []) (z ∷ []) ∙ append_assoc bs (x ∷ []) (y ∷ z ∷ [])

module _ (bs : List Block) (ps : List ℕ) where
  bind_buffer-IsStep :
      (i : ℕ) (s : Script) (d : Define)
      → IsFreeable (some (d.data_type, d.buffer))
      → IsStep bs ps (
          bind_buffer i s
            (got_param i ∷ obtain_counters i ++ obtained i buffer_slot d.buffer ∷ [])
            d)
  unfolding IsStep replay obtain_counters
  bind_buffer-IsStep i s d h =
      if-both (IsStep bs ps) (is_success s.define_by_pos)
        (ap (λ bs. some (holding bs (i ∷ ps))) (three_more bs _ _ _), h)
        (ap (λ bs. some (holding bs (i ∷ ps))) (three_more bs _ _ _), h)

  counted-IsStep :
      (i : ℕ) (e : DefineError)
      → IsStep bs ps (stopped e (got_param i ∷ obtain_counters i) (counted i))
  unfolding IsStep replay obtain_counters
  counted-IsStep i e = (ap (λ bs. some (holding bs (i ∷ ps))) (two_more bs _ _), tt)

  blank-IsStep : (i : ℕ) (e : DefineError) → IsStep bs ps (stopped e (got_param i ∷ []) (blank i))
  unfolding IsStep replay
  blank-IsStep i e = (ap (λ bs. some (holding bs (i ∷ ps))) (sym (append-nil bs)), tt)

  unstarted-IsStep : (i : ℕ) (e : DefineError) → IsStep bs ps (stopped e [] (blank i))
  unfolding IsStep replay
  unstarted-IsStep i e = (ap (λ bs. some (holding bs ps)) (sym (append-nil bs)), tt)

  pub step-IsStep : (i : ℕ) (s : Script) → s.info.data_type ≢ Sqlt.rset → IsStep bs ps (step i s)
  unfolding step
  step-IsStep i s h = if-both (IsStep bs ps) s.context_done (unstarted-IsStep i _) (
      if-both (IsStep bs ps) (not (is_success s.param_get)) (unstarted-IsStep i _) (
        if-both (IsStep bs ps) (not (is_success s.type_get)) (blank-IsStep i _) (
          if-both (IsStep bs ps) (not (is_success s.name_get)) (blank-IsStep i _) (
            if-both (IsStep bs ps) (not (is_success s.size_get)) (blank-IsStep i _)
              (switched i s h)))))
    where
      switched :
          (i : ℕ) (s : Script)
          → s.info.data_type ≢ Sqlt.rset
          → IsStep bs ps (switch_type i s (got_param i ∷ obtain_counters i))
      switched i s h =
          if-both (IsStep bs ps) (is_number s.info.data_type && not (is_success s.precision_get))
            (counted-IsStep i _)
            (if-both (IsStep bs ps) (is_number s.info.data_type && not (is_success s.scale_get))
              (counted-IsStep i _)
              (if-both (IsStep bs ps)
                (may_fail (define_column s.info).buffer && not (is_success s.buffer_alloc))
                (counted-IsStep i _)
                (bind_buffer-IsStep i s (define_column s.info)
                  (Undoes-undoes (define_column-Undoes s.info h)))))
