-- ===== src/Zone/Load.antt =====
-- globals.go: the part of `init` that fills `timeLocations`. Go's `time.LoadLocation` and
-- `time.FixedZone` are parameters.
use go_oci.Prelude.{
  Option-cases, inl, inr, ◌⊎◌, subst, sym, ℕ, zero, suc, ◌+◌, ◌*◌, ◌<◌, ◌≡◌, refl, ap, ◌∙◌, Option,
  some, none, List, [], ◌∷◌, ◌++◌, Bytes, codes, get_elem?, length, ltb, if◌then◌else◌, arith,
}
use go_oci.Prelude.Int.{ℤ, pos, negsuc, ◌*ℤ◌, sub_ℕ}
use go_oci.Zone.{format_int}
use go_oci.Zone.Offset.{IsHourly}

-- `timeLocationNames`
abbrev pub zone_names : List Bytes
zone_names =
    codes "Etc/GMT+12"
    ∷ codes "Pacific/Pago_Pago"
    ∷ codes "Pacific/Honolulu"
    ∷ codes "Pacific/Gambier"
    ∷ codes "Pacific/Pitcairn"
    ∷ codes "America/Phoenix"
    ∷ codes "America/Costa_Rica"
    ∷ codes "America/Panama"
    ∷ codes "America/Puerto_Rico"
    ∷ codes "America/Punta_Arenas"
    ∷ codes "America/Noronha"
    ∷ codes "Atlantic/Cape_Verde"
    ∷ codes "GMT"
    ∷ codes "Africa/Lagos"
    ∷ codes "Africa/Cairo"
    ∷ codes "Europe/Moscow"
    ∷ codes "Asia/Dubai"
    ∷ codes "Asia/Karachi"
    ∷ codes "Asia/Dhaka"
    ∷ codes "Asia/Jakarta"
    ∷ codes "Asia/Shanghai"
    ∷ codes "Asia/Tokyo"
    ∷ codes "Australia/Brisbane"
    ∷ codes "Pacific/Noumea"
    ∷ codes "Asia/Anadyr"
    ∷ codes "Pacific/Enderbury"
    ∷ codes "Pacific/Kiritimati"
    ∷ []

-- The name of the zone that stands in for one that cannot be loaded.
unfoldable pub stand_in_name : ℕ → Bytes
unfolding format_int
stand_in_name i =
    if ltb i 12
    then codes "GMT" ++ format_int (sub_ℕ i 12)
    else if ltb 12 i
    then codes "GMT" ++ codes "+" ++ format_int (sub_ℕ i 12)
    else codes "GMT"

abbrev pub or_else {ℓ} : {A : Type ℓ} → Option A → A → A
or_else none b = b
or_else (some a) b = a

module _ {Location : Type 0} (load_location : Bytes → Option Location)
    (fixed_zone : Bytes → ℤ → Location) where
  -- The body of the loop.
  abbrev pub load_zone : ℕ → Bytes → Location
  load_zone i name =
      or_else (load_location name) (fixed_zone (stand_in_name i) (pos 3600 *ℤ sub_ℕ i 12))

  -- The loop, from an index on.
  unfoldable pub load_from : ℕ → List Bytes → List Location
  unfolding stand_in_name ◌*ℤ◌
  load_from i [] = []
  load_from i (name ∷ names) = load_zone i name ∷ load_from (suc i) names

  -- `timeLocations` after `init`.
  unfoldable pub load_zones : List Location
  unfolding load_from
  load_zones = load_from 0 zone_names

-- The offset in seconds of the standard time of the zones that `init` names.
pub data StandardZone : ℤ → Bytes → Type 0 where
  gmt_behind_12 : StandardZone (negsuc 43199) (codes "Etc/GMT+12")
  pago_pago : StandardZone (negsuc 39599) (codes "Pacific/Pago_Pago")
  honolulu : StandardZone (negsuc 35999) (codes "Pacific/Honolulu")
  gambier : StandardZone (negsuc 32399) (codes "Pacific/Gambier")
  pitcairn : StandardZone (negsuc 28799) (codes "Pacific/Pitcairn")
  phoenix : StandardZone (negsuc 25199) (codes "America/Phoenix")
  costa_rica : StandardZone (negsuc 21599) (codes "America/Costa_Rica")
  panama : StandardZone (negsuc 17999) (codes "America/Panama")
  puerto_rico : StandardZone (negsuc 14399) (codes "America/Puerto_Rico")
  punta_arenas : StandardZone (negsuc 10799) (codes "America/Punta_Arenas")
  noronha : StandardZone (negsuc 7199) (codes "America/Noronha")
  cape_verde : StandardZone (negsuc 3599) (codes "Atlantic/Cape_Verde")
  gmt : StandardZone (pos 0) (codes "GMT")
  lagos : StandardZone (pos 3600) (codes "Africa/Lagos")
  cairo : StandardZone (pos 7200) (codes "Africa/Cairo")
  moscow : StandardZone (pos 10800) (codes "Europe/Moscow")
  dubai : StandardZone (pos 14400) (codes "Asia/Dubai")
  karachi : StandardZone (pos 18000) (codes "Asia/Karachi")
  dhaka : StandardZone (pos 21600) (codes "Asia/Dhaka")
  jakarta : StandardZone (pos 25200) (codes "Asia/Jakarta")
  shanghai : StandardZone (pos 28800) (codes "Asia/Shanghai")
  tokyo : StandardZone (pos 32400) (codes "Asia/Tokyo")
  brisbane : StandardZone (pos 36000) (codes "Australia/Brisbane")
  noumea : StandardZone (pos 39600) (codes "Pacific/Noumea")
  anadyr : StandardZone (pos 43200) (codes "Asia/Anadyr")
  enderbury : StandardZone (pos 46800) (codes "Pacific/Enderbury")
  kiritimati : StandardZone (pos 50400) (codes "Pacific/Kiritimati")

-- Names of which each is a zone for its hour, from an index on.
data HourByHour : ℕ → List Bytes → Type 0 where
  no_more : (i : ℕ) → HourByHour i []
  hour_zone :
      (i : ℕ) (name : Bytes) (names : List Bytes)
      → StandardZone (sub_ℕ (3600 * i) 43200) name
      → HourByHour (suc i) names
      → HourByHour i (name ∷ names)

infixr 5 ◌before◌
◌before◌ :
    {i : ℕ} {name : Bytes} {names : List Bytes}
    → StandardZone (sub_ℕ (3600 * i) 43200) name
    → HourByHour (suc i) names
    → HourByHour i (name ∷ names)
zone before later = hour_zone _ _ _ zone later

zone_names-HourByHour : HourByHour 0 zone_names
zone_names-HourByHour =
    StandardZone.gmt_behind_12
    before StandardZone.pago_pago
    before StandardZone.honolulu
    before StandardZone.gambier
    before StandardZone.pitcairn
    before StandardZone.phoenix
    before StandardZone.costa_rica
    before StandardZone.panama
    before StandardZone.puerto_rico
    before StandardZone.punta_arenas
    before StandardZone.noronha
    before StandardZone.cape_verde
    before StandardZone.gmt
    before StandardZone.lagos
    before StandardZone.cairo
    before StandardZone.moscow
    before StandardZone.dubai
    before StandardZone.karachi
    before StandardZone.dhaka
    before StandardZone.jakarta
    before StandardZone.shanghai
    before StandardZone.tokyo
    before StandardZone.brisbane
    before StandardZone.noumea
    before StandardZone.anadyr
    before StandardZone.enderbury
    before StandardZone.kiritimati
    before no_more 27

hour_by_hour :
    (i k j : ℕ) (names : List Bytes)
    → HourByHour i names
    → i + k ≡ j
    → k < length names
    → (name : Bytes) × (get_elem? names k ≡ some name) × StandardZone (sub_ℕ (3600 * j) 43200) name
hour_by_hour i k j _ (no_more _) e h = absurd (omega (arith, h))
hour_by_hour i zero j _ (hour_zone _ name names zone later) e h =
    (name, refl, subst (λ n. StandardZone (sub_ℕ (3600 * n) 43200) name) (same e) zone)
  where
    same : i + 0 ≡ j → i ≡ j
    same e = omega (arith, e)
hour_by_hour i (suc k) j _ (hour_zone _ name names zone later) e h =
    hour_by_hour (suc i) k j names later (omega (arith, e)) (omega (arith, h))

zone_names-StandardZone :
    (i : ℕ)
    → i < 27
    → (name : Bytes) × (get_elem? zone_names i ≡ some name)
      × StandardZone (sub_ℕ (3600 * i) 43200) name
zone_names-StandardZone i h = hour_by_hour 0 i i zone_names zone_names-HourByHour (omega arith) h

hour_offset : (i : ℕ) → pos 3600 *ℤ sub_ℕ i 12 ≡ sub_ℕ (3600 * i) 43200
unfolding ◌*ℤ◌
hour_offset i = ground arith

module _ {Location Time : Type 0} (load_location : Bytes → Option Location)
    (fixed_zone : Bytes → ℤ → Location) (offset : Location → Time → ℤ) where
  -- A fixed zone has the offset that it is made with, at all times.
  abbrev pub KeepsOffsets : Type 0
  KeepsOffsets = (name : Bytes) (o : ℤ) (t : Time) → offset (fixed_zone name o) t ≡ o

  -- The location has the offset at all times, or it is the one loaded under the name of a zone whose
  -- standard time has the offset.
  abbrev pub StandsFor : Location → ℤ → Type 0
  StandsFor l o =
      ((t : Time) → offset l t ≡ o)
      ⊎ ((name : Bytes) × (load_location name ≡ some l) × StandardZone o name)

  load_zone-StandsFor :
      (i : ℕ) (name : Bytes)
      → KeepsOffsets
      → StandardZone (sub_ℕ (3600 * i) 43200) name
      → StandsFor (load_zone load_location fixed_zone i name) (sub_ℕ (3600 * i) 43200)
  load_zone-StandsFor i name fixed zone = elim (Option-cases (load_location name)) [
    | inl h ↦
        subst (λ o. StandsFor (or_else o (stand_in i)) (sub_ℕ (3600 * i) 43200)) (sym h)
          (inl (λ t. fixed _ _ t ∙ hour_offset i))
    | inr (l, h) ↦
        subst (λ o. StandsFor (or_else o (stand_in i)) (sub_ℕ (3600 * i) 43200)) (sym h)
          (inr (name, h, zone))
  ]
    where
      stand_in : ℕ → Location
      stand_in i = fixed_zone (stand_in_name i) (pos 3600 *ℤ sub_ℕ i 12)

  get_load_from :
      (i k j : ℕ) (names : List Bytes) (name : Bytes)
      → i + k ≡ j
      → get_elem? names k ≡ some name
      → get_elem? (load_from load_location fixed_zone i names) k
        ≡ some (load_zone load_location fixed_zone j name)
  unfolding load_from
  get_load_from i k j [] name e h = cc
  get_load_from i zero j (x ∷ names) name e h =
      ap (λ n. some (load_zone load_location fixed_zone n x)) (same e)
      ∙ ap (λ n. some (load_zone load_location fixed_zone j n)) (ap (λ o. or_else o x) h)
    where
      same : i + 0 ≡ j → i ≡ j
      same e = omega (arith, e)
  get_load_from i (suc k) j (x ∷ names) name e h =
      get_load_from (suc i) k j names name (omega (arith, e)) h

  -- `timeLocations` is a table of the hours.
  pub load_zones-IsHourly : KeepsOffsets → IsHourly StandsFor (load_zones load_location fixed_zone)
  unfolding load_zones
  load_zones-IsHourly fixed i h =
      let (name, e, zone) = zone_names-StandardZone i h in
      (
        load_zone load_location fixed_zone i name,
        get_load_from 0 i i zone_names name (omega arith) e,
        load_zone-StandsFor i name fixed zone,
      )
