-- ===== src/Risk/Laws.antt =====
-- The risk score stays in its range, and a higher score never has a lower level.
use constrails.Prelude.{ℕ, ◌≤◌, String, List, true, false, ◌≡◌, arith}
use constrails.Models.{Float, ActionRequest, RiskLevel, low, medium, high, critical}
use constrails.Config.{Settings}
use constrails.Audit.{AuditRecord}
use constrails.Risk.{Floats, Profile, f_zero, f_one, clamp, raw_score, profile_of, level_of, assess}

abbrev pub rank : RiskLevel → ℕ
rank low = 0
rank medium = 1
rank high = 2
rank critical = 3

module _ (floats : Floats) where
  open floats use {lt, ge, lt_irrefl, lt_asymm, ge_trans, zero_lt_one}

  clamp_range :
      (s : Float) → (lt f_one (clamp floats s) ≡ false) × (lt (clamp floats s) f_zero ≡ false)
  clamp_range s = (
    ground (arith, lt_irrefl f_one, lt_asymm f_zero f_one zero_lt_one, lt_asymm s f_one),
    ground (arith, lt_irrefl f_zero, lt_asymm f_zero f_one zero_lt_one, lt_asymm f_zero s),
  )

  level_of_mono :
      (settings : Settings) (s t : Float)
      → ge t s ≡ true
      → rank (level_of floats settings s) ≤ rank (level_of floats settings t)
  unfolding level_of
  level_of_mono settings s t h = ground (
    arith,
    ge_trans t s settings.risk_threshold_critical h,
    ge_trans t s settings.risk_threshold_high h,
    ge_trans t s settings.risk_threshold_medium h,
  )

  -- Whatever the request, its parameters and the history, the score of an assessment is neither above 1
  -- nor below 0.
  pub assess-score_range :
      (settings : Settings) (profiles : List (String × Profile)) (rows : List AuditRecord)
      (request : ActionRequest)
      → (lt f_one (assess floats settings profiles rows request).score ≡ false)
        × (lt (assess floats settings profiles rows request).score f_zero ≡ false)
  unfolding assess
  assess-score_range settings profiles rows request =
      clamp_range (raw_score floats settings (profile_of profiles request.call.tool) rows request)

  -- Of two assessments under one configuration, the one with a score at least as high has a level at
  -- least as high, in the order low, medium, high, critical.
  pub assess-level_mono :
      (settings : Settings) (profiles : List (String × Profile)) (rows rows' : List AuditRecord)
      (request request' : ActionRequest)
      → ge
          (assess floats settings profiles rows' request').score
          (assess floats settings profiles rows request).score
        ≡ true
      → rank (assess floats settings profiles rows request).level
        ≤ rank (assess floats settings profiles rows' request').level
  unfolding assess
  assess-level_mono settings profiles rows rows' request request' h =
      level_of_mono settings (assess floats settings profiles rows request).score
        (assess floats settings profiles rows' request').score h
