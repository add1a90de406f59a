-- ===== src/Ivr/Speed.antt =====
-- The speed of a recording, platform/app/services/fsm/instantiation/speed_control.py, in hundredths.
use seeds.Base.{
  ℕ, ◌≤◌, ◌<◌, min, max, ◌≡◌, Bool, true, ◌&&◌, List, [], ◌∷◌, ltb, leb, eqb, select, if◌then◌else◌,
  arith, ◌⊎◌,
}

abbrev pub min_speed : ℕ
min_speed = 75

abbrev pub max_speed : ℕ
max_speed = 200

abbrev pub supported_speeds : List ℕ
supported_speeds = 75 ∷ 100 ∷ 125 ∷ 150 ∷ 200 ∷ []

-- `min(speeds, default=d)` and `max(speeds, default=d)`
abbrev pub min_of : ℕ → List ℕ → ℕ
min_of d [] = d
min_of d (s ∷ []) = s
min_of d (s ∷ t ∷ rest) = min s (min_of d (t ∷ rest))

abbrev pub max_of : ℕ → List ℕ → ℕ
max_of d [] = d
max_of d (s ∷ []) = s
max_of d (s ∷ t ∷ rest) = max s (max_of d (t ∷ rest))

abbrev pub usual_if_outside : ℕ → ℕ
usual_if_outside current = if leb min_speed current && leb current max_speed then current else 100

-- the new speed, and whether it is the greatest
unfoldable pub increase_speed : ℕ → ℕ × Bool
increase_speed current_speed =
    let current = usual_if_outside current_speed in
    if leb max_speed current
    then (current, true)
    else (let new_speed = min_of max_speed (select (ltb current) supported_speeds) in
        (new_speed, eqb new_speed max_speed))

-- the new speed, and whether it is the least
unfoldable pub decrease_speed : ℕ → ℕ × Bool
decrease_speed current_speed =
    let current = usual_if_outside current_speed in
    if leb current min_speed
    then (current, true)
    else (let new_speed = max_of min_speed (select (λ s. ltb s current) supported_speeds) in
        (new_speed, eqb new_speed min_speed))

-- one of the supported speeds
abbrev pub IsSupported : ℕ → Type 0
IsSupported s = (s ≡ 75) ⊎ ((s ≡ 100) ⊎ ((s ≡ 125) ⊎ ((s ≡ 150) ⊎ (s ≡ 200))))

-- The faster speed, for any current speed, is supported; unless the current one is the greatest, it is
-- above the current one (1.0 for one that is out of range), and no supported speed lies between.
pub increase_speed-next :
    (c s : ℕ)
    → IsSupported s
    → IsSupported (increase_speed c).0
      × ((increase_speed c ≡ (max_speed, true))
          ⊎ ((usual_if_outside c < (increase_speed c).0)
              × ((s ≤ usual_if_outside c) ⊎ ((increase_speed c).0 ≤ s))))
unfolding increase_speed
increase_speed-next c s h = ground arith

-- The slower speed, for any current speed, is supported; unless the current one is the least, it is
-- below the current one (1.0 for one that is out of range), and no supported speed lies between.
pub decrease_speed-next :
    (c s : ℕ)
    → IsSupported s
    → IsSupported (decrease_speed c).0
      × ((decrease_speed c ≡ (min_speed, true))
          ⊎ (((decrease_speed c).0 < usual_if_outside c)
              × ((s ≤ (decrease_speed c).0) ⊎ (usual_if_outside c ≤ s))))
unfolding decrease_speed
decrease_speed-next c s h = ground arith

-- One step faster and one step slower leave a supported speed as it was, unless it is the greatest,
-- and one step slower and one faster do, unless it is the least.
pub speeds-round_trip :
    (c : ℕ)
    → IsSupported c
    → ((c ≡ max_speed) ⊎ ((decrease_speed (increase_speed c).0).0 ≡ c))
      × ((c ≡ min_speed) ⊎ ((increase_speed (decrease_speed c).0).0 ≡ c))
unfolding increase_speed decrease_speed
speeds-round_trip c h = ground arith
