-- ===== src/Memory/Monitor.antt =====
-- How often the monitor warns.
use fusillade.Prelude.{
  ℕ, suc, ◌≤◌, ◌≡◌, refl, Bool, true, false, List, [], ◌∷◌, arith, All, if◌then◌else◌,
}
use fusillade.Float.{Float}
use fusillade.Memory.{
  MemoryInfo, Callback, on_warning, on_critical, round, monitor, usage_percent,
  warn_threshold_percent, critical_threshold_percent,
}

abbrev pub warnings : List Callback → ℕ
warnings [] = 0
warnings (on_warning i ∷ cs) = suc (warnings cs)
warnings (on_critical i ∷ cs) = warnings cs

abbrev pub criticals : List Callback → List MemoryInfo
criticals [] = []
criticals (on_warning i ∷ cs) = criticals cs
criticals (on_critical i ∷ cs) = i ∷ criticals cs

-- The readings that are critical.
abbrev pub critical_readings : (fl : Float) → List MemoryInfo → List MemoryInfo
critical_readings fl [] = []
critical_readings fl (i ∷ is) =
    if fl.le (critical_threshold_percent fl) (usage_percent fl i)
    then i ∷ critical_readings fl is
    else critical_readings fl is

-- While no reading falls below the warning threshold there is at most one warning, and none if one
-- was given before; and each critical reading is reported, in order, and nothing else is.
monitor-once :
    (fl : Float) (warned : Bool) (infos : List MemoryInfo)
    → All (λ i. fl.lt (usage_percent fl i) (warn_threshold_percent fl) ≡ false) infos
    → (warnings (monitor fl warned infos) ≤ (if warned then 0 else 1))
      × (criticals (monitor fl warned infos) ≡ critical_readings fl infos)
unfolding monitor round
monitor-once fl warned [] h = (ground arith, refl)
monitor-once fl warned (i ∷ is) h =
    ground (arith, monitor-once fl warned is h.1, monitor-once fl true is h.1)
