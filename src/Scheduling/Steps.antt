-- ===== src/Scheduling/Steps.antt =====
-- What a turn of a VO does to the handler.
use fts.Common.{
  List, Option, String, arith, find, inl, inr, none, refl, some, suc, ℕ, ◌<◌, ◌∙◌, ◌≡◌, ◌≤◌, ◌⊎◌,
  string_key, nat_key,
}
use fts.CommandLine.Types.{TransferFile}
use fts.Scheduling.Amounts.{size-amount}
use fts.Scheduling.Handler.{Handler, get, size}
use fts.Scheduling.Ready.{IsReady}
use fts.Scheduling.Serve.{
  Serving, note_activity, note_proxy, serve_file, serve_got, serve_vo, start_if_free, start_task,
  proxy_key,
}
use fts.Scheduling.Stock.{Hands, IsStocked, get-Hands, hands, nothing_left}
use fts.Scheduling.Types.{index_key}

-- A handler that is ready and stocked, with the VOs and at most the size that were given.
pub record IsWithin (vos : List String) (n : ℕ) (h : Handler) : Type 0 where
  pub ready : IsReady h
  pub stocked : IsStocked h
  pub same_vos : h.vos ≡ vos
  pub within : size h ≤ n

module _ (vo : String) (h : Handler) where
  Hands-IsWithin :
      (vos : List String) (n : ℕ) (x : Option TransferFile × Handler)
      → IsWithin vos n h
      → Hands vo h x
      → IsWithin vos n x.1
  Hands-IsWithin vos n x w (nothing_left e) = w
  Hands-IsWithin vos n x w (hands t h' r s v a) = record {
    ready = r;
    stocked = s;
    same_vos = v ∙ w.same_vos;
    within = let b = a (λ vo i. 1) in omega (arith, b, size-amount h, size-amount h', w.within);
  }

  -- A file that is handed out makes the handler smaller; a VO without an entry leaves it as it is.
  pub Hands-progress :
      (x : Option TransferFile × Handler)
      → Hands vo h x
      → (size x.1 < size h) ⊎ ((find vo h.vo_to_file_indexes ≡ none) × (x.1 ≡ h))
  Hands-progress x (nothing_left e) = inr (e, refl)
  Hands-progress x (hands t h' r s v a) =
      let b = a (λ vo i. 1) in inl (omega (arith, b, size-amount h, size-amount h'))

module _ (get_proxy_file : String → String → String) where
  serve_file_handler :
      (t : TransferFile) (s : Serving) → (serve_file get_proxy_file t s).handler ≡ s.handler
  unfolding serve_file note_activity note_proxy start_if_free start_task
  serve_file_handler t s = ground arith

  pub serve_got_handler :
      (x : Option TransferFile × Handler) (s : Serving)
      → (serve_got get_proxy_file x s).handler ≡ x.1
  unfolding serve_got
  serve_got_handler (none, h) s = refl
  serve_got_handler (some t, h) s = serve_file_handler t (record s { handler = h })

  pub serve_vo_handler :
      (vo : String) (s : Serving) → (serve_vo get_proxy_file vo s).handler ≡ (get vo s.handler).1
  unfolding serve_vo
  serve_vo_handler vo s = serve_got_handler (get vo s.handler) (record s { checks = suc s.checks })

  pub serve_vo-Hands :
      (vo : String) (s : Serving)
      → IsReady s.handler
      → IsStocked s.handler
      → Hands vo s.handler ((get vo s.handler).0, (serve_vo get_proxy_file vo s).handler)
  serve_vo-Hands vo s r k = rw (serve_vo_handler vo s) (get-Hands vo s.handler r k)

  pub serve_vo-IsWithin :
      (vos : List String) (n : ℕ) (vo : String) (s : Serving)
      → IsWithin vos n s.handler
      → IsWithin vos n (serve_vo get_proxy_file vo s).handler
  serve_vo-IsWithin vos n vo s w =
      Hands-IsWithin vo s.handler vos n _ w (serve_vo-Hands vo s w.ready w.stocked)

  pub after :
      (vo : String) (s : Serving)
      → IsReady s.handler
      → IsStocked s.handler
      → IsWithin s.handler.vos
          (size (serve_vo get_proxy_file vo s).handler)
          (serve_vo get_proxy_file vo s).handler
  after vo s r k =
      let w =
        serve_vo-IsWithin s.handler.vos (size s.handler) vo s
          (record { ready = r; stocked = k; same_vos = refl; within = omega arith }) in
      record { ready = w.ready; stocked = w.stocked; same_vos = w.same_vos; within = omega arith }
