-- ===== src/Scheduling/Keeps.antt =====
-- What every step of the loop of `getFiles` keeps, the loop keeps. A VO has a turn while processes are free.
use fts.Common.{
  Bool, Bool-cases, List, String, [], arith, false, if◌then◌else◌, inl, inr, le_ℤ, pos, refl, some,
  subst, suc, true, zero, ℕ, ◌||◌, ◌∷◌, ◌≡◌,
}
use fts.Scheduling.Handler.{is_served}
use fts.Scheduling.Serve.{Serving, serve, serve_pass, serve_vo}

module _ {ℓ} (get_proxy_file : String → String → String) (P : Serving → Type ℓ)
    (keep_interrupted : (s : Serving) → P s → P (record s { is_interrupted = true }))
    (keep_vo : (vo : String) (s : Serving)
      → le_ℤ s.available (pos 0) ≡ false
      → P s
      → P (serve_vo get_proxy_file vo s))
    (interrupted : ℕ → Bool) where
  keep_if : (b : Bool) (s s' : Serving) → P s → (b ≡ false → P s') → P (if b then s else s')
  keep_if true s s' p p' = p
  keep_if false s s' p p' = p' refl

  pub serve_pass_keeps :
      (vos : List String) (s : Serving) → P s → P (serve_pass get_proxy_file interrupted vos s)
  unfolding serve_pass
  serve_pass_keeps [] s p = p
  serve_pass_keeps (vo ∷ vos) s p = keep_if (le_ℤ s.available (pos 0)) s _ p λ free.
      keep_if (interrupted s.checks) _ _ (keep_interrupted s p)
        λ e. serve_pass_keeps vos _ (keep_vo vo s free p)

  pub serve_keeps :
      (fuel : ℕ) (s s' : Serving) → P s → serve get_proxy_file interrupted fuel s ≡ some s' → P s'
  unfolding serve
  serve_keeps zero s s' p h = absurd (cc h)
  serve_keeps (suc fuel) s s' p h =
      elim (Bool-cases (s.is_interrupted || is_served s.handler || le_ℤ s.available (pos 0))) [
        | inl e ↦ subst P (ground (arith, e, h)) p
        | inr e ↦
            serve_keeps fuel (serve_pass get_proxy_file interrupted s.handler.vos s) s'
              (serve_pass_keeps s.handler.vos s p) (ground (arith, e, h))
      ]
