-- ===== src/Ota/Session.antt =====
-- The session of an update: its end and its handle.
use fortunelabs_mainboard_l.Prelude.{
  ℕ, zero, suc, ◌+◌, ◌≤◌, ◌<◌, ◌≡◌, refl, Bool, true, false, not, ◌&&◌, ◌||◌, [], ◌∷◌, Option, none,
  some, if◌then◌else◌, ◌==◌, arith,
}
use fortunelabs_mainboard_l.Prelude.Text.{codes}
use fortunelabs_mainboard_l.Platform.{Err, ok, err, is_ok, Pointer, is_null}
use fortunelabs_mainboard_l.Ota.Update.{
  OtaCall, begin_ota, perform, finish, wait_ms, image_len_read, Trace, OtaPlatform, Config,
  is_progress, default_timeout_ms, update_display_status, report, download, evaluate, conclude,
  ota_perform,
}

-- How often a handle was given back, and how many steps of a download were made.
abbrev pub finish_call : OtaCall → ℕ → ℕ
finish_call (finish h) n = suc n
finish_call _ n = n

abbrev pub finishes : Trace → ℕ
finishes [] = 0
finishes (c ∷ t) = finish_call c (finishes t)

abbrev pub perform_call : OtaCall → ℕ → ℕ
perform_call (perform h) n = suc n
perform_call _ n = n

abbrev pub performs : Trace → ℕ
performs [] = 0
performs (c ∷ t) = perform_call c (performs t)

abbrev pub is_begin : OtaCall → Bool
is_begin (begin_ota ms skip) = true
is_begin _ = false

abbrev pub is_ended : Option Err → Bool
is_ended none = false
is_ended (some e) = true

module _ (P : OtaPlatform) where
  report-counts :
      (h : ℕ) (last : Option ℕ) (t : Trace)
      → let (last', t') = report P h last t in
        (finishes t' ≡ finishes t) × (performs t' ≡ performs t)
  unfolding report update_display_status
  report-counts h last t = ground arith

  download-finishes :
      (n h : ℕ) (last : Option ℕ) (t : Trace) → finishes (download P n h last t).1 ≡ finishes t
  unfolding download
  download-finishes zero h last t = refl
  download-finishes (suc n) h last t =
      let (last1, t2) = report P h last (perform h ∷ t) in
      ground
        (arith, report-counts h last (perform h ∷ t), download-finishes n h last1 (wait_ms 20 ∷ t2))

  evaluate-finishes :
      (cfg : Config) (h : ℕ) (e : Err) (t : Trace)
      → finishes (evaluate P cfg h e t).1 ≡ finishes t + 1
  unfolding evaluate update_display_status
  evaluate-finishes cfg h ok t = ground arith
  evaluate-finishes cfg h (err c) t = ground arith

  conclude-finishes :
      (cfg : Config) (h : ℕ) (e : Option Err) (t : Trace)
      → is_ended (conclude P cfg h e t).0 ≡ true
      → finishes (conclude P cfg h e t).1 ≡ finishes t + 1
  unfolding conclude
  conclude-finishes cfg h none t k = absurd (cc k)
  conclude-finishes cfg h (some e) t k = evaluate-finishes cfg h e t

  -- The call that begins the session, and whether it gives a handle.
  abbrev pub opening : Config → OtaCall
  opening cfg =
      begin_ota (if cfg.timeout_ms == 0 then default_timeout_ms else cfg.timeout_ms)
        cfg.skip_cert_check

  abbrev pub is_open : Pointer → Config → Trace → Bool
  is_open p cfg t =
      not (is_null p || not cfg.has_url)
      && not (not (is_ok (P.status t (opening cfg))) || P.value t (opening cfg) == 0)

  -- An update that ends gives its handle back exactly once if it was given one, whatever fails,
  -- and gives none back otherwise.
  pub ota_perform-finishes :
      (fuel : ℕ) (p : Pointer) (cfg : Config) (t : Trace)
      → is_ended (ota_perform P fuel p cfg t).0 ≡ true
      → finishes (ota_perform P fuel p cfg t).1 ≡ finishes t + (if is_open p cfg t then 1 else 0)
  unfolding ota_perform update_display_status
  ota_perform-finishes fuel p cfg t e =
      let h = P.value t (opening cfg) in
      let d =
        download P fuel h none
          (update_display_status P (codes "OTA: Connecting") (opening cfg ∷ t)) in
      ground (
        arith,
        e,
        download-finishes fuel h none
            (update_display_status P (codes "OTA: Connecting") (opening cfg ∷ t)),
        conclude-finishes cfg h d.0 d.1,
      )

  -- How much of the image of a handle was read, by `esp_https_ota_get_image_len_read`.
  abbrev pub image_read : ℕ → Trace → ℕ
  image_read h t = P.value t (image_len_read h)

  -- What is relied on of the download: a step that leaves it in progress reads more of the image,
  -- never more than its size; what was read stays read until another session begins.
  pub record IsServed (size : ℕ) : Type 0 where
    pub grows :
        (t : Trace) (h : ℕ)
        → is_progress (P.status t (perform h)) ≡ true
        → image_read h t < image_read h (perform h ∷ t)
    pub within :
        (t : Trace) (h : ℕ)
        → is_progress (P.status t (perform h)) ≡ true
        → image_read h (perform h ∷ t) ≤ size
    pub kept :
        (t : Trace) (h : ℕ) (c : OtaCall)
        → is_begin c ≡ false
        → image_read h t ≤ image_read h (c ∷ t)
