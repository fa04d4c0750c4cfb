-- ===== src/Scheduling/Ends.antt =====
-- The loop of `getFiles` ends.
use fts.Common.{
  Bool, Bool-cases, Dict, Each, List, String, [], ap, arith, false, find, inl, inr, is_empty, le_ℤ,
  none, pos, refl, some, str_beq_iff, subst, suc, sym, true, zero, ℕ, ◌+◌, ◌<◌, ◌==◌, ◌||◌, ◌∙◌,
  ◌∷◌, ◌≡◌, ◌⊎◌, string_key, nat_key,
}
use fts.Scheduling.Handler.{Handler, is_served, size}
use fts.Scheduling.Keeps.{serve_pass_keeps}
use fts.Scheduling.Ready.{IsReady, has_vo}
use fts.Scheduling.Serve.{Serving, serve, serve_pass, serve_vo, proxy_key}
use fts.Scheduling.Steps.{Hands-progress, IsWithin, after, serve_vo-IsWithin, serve_vo-Hands}
use fts.Scheduling.Stock.{IsStocked}
use fts.Scheduling.Types.{FileIndex, index_key}
use fts.Transfers.LinkMap.{LinkMap}

abbrev pub is_stopped : Serving → Bool
is_stopped s = s.is_interrupted || le_ℤ s.available (pos 0)

find_first :
    (v : String) (m : LinkMap FileIndex) (d : Dict String (LinkMap FileIndex))
    → find v ((v, m) ∷ d) ≡ some m
unfolding find
find_first v m d = ground (arith, str_beq_iff v v)

module _ (get_proxy_file : String → String → String) (interrupted : ℕ → Bool) where
  pass-IsWithin :
      (vos : List String) (n : ℕ) (ws : List String) (s : Serving)
      → IsWithin vos n s.handler
      → IsWithin vos n (serve_pass get_proxy_file interrupted ws s).handler
  pass-IsWithin vos n =
      serve_pass_keeps get_proxy_file (λ s. IsWithin vos n s.handler) (λ s w. w)
        (λ vo s free. serve_vo-IsWithin get_proxy_file vos n vo s) interrupted

  Progress : Serving → Serving → Type 0
  Progress s s' = (is_stopped s' ≡ true) ⊎ (size s'.handler < size s.handler)

  at_same :
      (w : String) (s : Serving)
      → (serve_vo get_proxy_file w s).handler ≡ s.handler
      → (s' : Serving) → Progress (serve_vo get_proxy_file w s) s'
      → Progress s s'
  unfolding Progress
  at_same w s e s' (inl stopped) = inl stopped
  at_same w s e s' (inr less) = inr (subst (λ h. size s'.handler < size h) e less)

  has_rest :
      (w v : String) (ws : List String) (s : Serving) (m : LinkMap FileIndex)
      → find v s.handler.vo_to_file_indexes ≡ some m
      → find w s.handler.vo_to_file_indexes ≡ none
      → has_vo v (w ∷ ws) ≡ true
      → has_vo v ws ≡ true
  unfolding has_vo
  has_rest w v ws s m hm gone hv = elim (Bool-cases (w == v)) [
    | inl e ↦ absurd (ground (arith, gone, hm, (str_beq_iff w v).0 e))
    | inr e ↦ ground (arith, e, hv)
  ]

  -- A pass over the VOs, one of which has an entry, stops or hands out a file.
  pass-Progress :
      (ws : List String) (s : Serving) (v : String) (m : LinkMap FileIndex)
      → IsReady s.handler
      → IsStocked s.handler
      → find v s.handler.vo_to_file_indexes ≡ some m
      → has_vo v ws ≡ true
      → Progress s (serve_pass get_proxy_file interrupted ws s)
  unfolding serve_pass has_vo Progress
  pass-Progress [] s v m r k hm hv = absurd (cc hv)
  pass-Progress (w ∷ ws) s v m r k hm hv = elim (Bool-cases (le_ℤ s.available (pos 0))) [
    | inl a ↦ inl (ground (arith, a))
    | inr a ↦ elim (Bool-cases (interrupted s.checks)) [
      | inl b ↦ inl (ground (arith, a, b))
      | inr b ↦
          rw (a, b)
            (elim (Hands-progress w s.handler _ (serve_vo-Hands get_proxy_file w s r k)) [
              | inl less ↦ inr (
                  let i =
                    (pass-IsWithin _ _ ws (serve_vo get_proxy_file w s)
                      (after get_proxy_file w s r k)).within in
                  omega (arith, i, less))
              | inr (gone, same) ↦
                  at_same w s same
                    (serve_pass get_proxy_file interrupted ws (serve_vo get_proxy_file w s))
                    (pass-Progress ws (serve_vo get_proxy_file w s) v m (subst IsReady (sym same) r)
                      (subst IsStocked (sym same) k)
                      (ap (λ h. find v h.vo_to_file_indexes) same ∙ hm)
                      (has_rest w v ws s m hm gone hv))
            ])
    ]
  ]

  entry_there :
      (h : Handler)
      → IsReady h
      → is_served h ≡ false
      → (v : String) × (m : LinkMap FileIndex) × (find v h.vo_to_file_indexes ≡ some m)
        × (has_vo v h.vos ≡ true)
  unfolding is_served
  entry_there h r n = by_entries h.vo_to_file_indexes n r.listed
    where
      by_entries :
          (d : Dict String (LinkMap FileIndex))
          → is_empty d ≡ false
          → Each (λ e. has_vo e.0 h.vos ≡ true) d
          → (v : String) × (m : LinkMap FileIndex) × (find v d ≡ some m) × (has_vo v h.vos ≡ true)
      by_entries [] n l = absurd (cc n)
      by_entries ((v, m) ∷ d) n l = (v, m, find_first v m d, l.0)

  -- The loop ends with this result.
  abbrev pub Ends : ℕ → Serving → Type 0
  Ends fuel s =
      (s' : Serving) × (serve get_proxy_file interrupted fuel s ≡ some s')
      × (is_stopped s' || is_served s'.handler ≡ true)

  serve_stopped :
      (fuel : ℕ) (s : Serving)
      → 0 < fuel
      → is_stopped s || is_served s.handler ≡ true
      → serve get_proxy_file interrupted fuel s ≡ some s
  unfolding serve
  serve_stopped zero s l h = absurd (omega arith)
  serve_stopped (suc fuel) s l h = ground (arith, h)

  -- With more fuel than there are files, the loop ends.
  pub serve-Ends :
      (fuel : ℕ) (s : Serving)
      → IsReady s.handler
      → IsStocked s.handler
      → size s.handler + 1 < fuel
      → Ends fuel s
  unfolding serve Progress
  serve-Ends zero s r k l = absurd (omega arith)
  serve-Ends (suc fuel) s r k l = elim (Bool-cases (is_stopped s || is_served s.handler)) [
    | inl e ↦ (s, serve_stopped (suc fuel) s (omega arith) e, e)
    | inr e ↦
        let s₁ = serve_pass get_proxy_file interrupted s.handler.vos s in
        let (v, m, hm, hv) = entry_there s.handler r (ground (arith, e)) in
        let w =
          pass-IsWithin s.handler.vos (size s.handler) s.handler.vos s
            (record { ready = r; stocked = k; same_vos = refl; within = omega arith }) in
        let more : Ends fuel s₁ = elim (pass-Progress s.handler.vos s v m r k hm hv) [
          | inl stopped ↦ (
            s₁,
            serve_stopped fuel s₁ (omega arith) (ground (arith, stopped)),
            ground (arith, stopped),
          )
          | inr less ↦ serve-Ends fuel s₁ w.ready w.stocked (omega (arith, less))
        ] in
        (more.0, ground (arith, e, more.1), more.2)
  ]
