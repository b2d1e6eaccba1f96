-- ===== src/Manufacturer/Laws/Codes.antt =====
-- The trouble codes of a control unit: what mode 03 reports, and what a profile changes.
use Prim.Native.String.{String}
use mcp2515_rpi.Base.{
  ℕ, zero, suc, take, ◌+◌, ◌*◌, ◌/◌, ◌<◌, ◌≤◌, min, ◌≡◌, ◌≢◌, ◌⊎◌, refl, sym, subst, ap, ap₂, ◌∙◌,
  Bool, true, false, Option, none, some, List, [], ◌∷◌, map, arith, length, take_all, All, ◌==◌,
  ==_iff, if◌then◌else◌, Bool-cases, inl, inr, true_not_false,
}
use mcp2515_rpi.Base.Bits.{bit_and_ff}
use mcp2515_rpi.Manufacturer.{
  Ecu, DtcInfo, get_dtcs, set_dtc, set_codes, drop_codes, is_code_of, apply_profile_dtcs,
}
use mcp2515_rpi.Can.{make_frame, frame_payload}
use mcp2515_rpi.Can.Transmit.{make_frame_lem}
use mcp2515_rpi.Manufacturer.Profiles.{VehicleProfile, get_current_profile}
use mcp2515_rpi.Manufacturer.Modes.{
  dtc_bytes, handle_mode03, handle_mode04, handle_mode07, handle_mode0a,
}

-- A tester's reading of pairs of bytes.
pub read_codes : List ℕ → List ℕ
read_codes [] = []
read_codes (high ∷ []) = []
read_codes (high ∷ low ∷ rest) = (high * 256 + low) ∷ read_codes rest

abbrev code_of : DtcInfo → ℕ
code_of d = d.code

-- As many bytes as some codes have, and one more.
abbrev one_more : ℕ → ℕ
one_more zero = 1
one_more (suc k) = suc (suc (one_more k))

-- The bytes cut within a code: the codes before it are read.
read-cut_bytes :
    (k : ℕ) (ds : List DtcInfo)
    → All (λ d. code_of d < 65536) ds
    → read_codes (take (one_more k) (dtc_bytes ds)) ≡ take k (map code_of ds)
unfolding read_codes dtc_bytes
read-cut_bytes zero [] h = refl
read-cut_bytes (suc k) [] h = refl
read-cut_bytes zero (d ∷ ds) h = refl
read-cut_bytes (suc k) (d ∷ ds) (h, hs) =
    ap₂ (λ c cs. c ∷ cs) (ground (arith, bit_and_ff (d.code / 256), bit_and_ff d.code))
      (read-cut_bytes k ds hs)

-- A tester's reading of a mode 03 response: the count and the codes.
pub read_response : List ℕ → ℕ × List ℕ
unfolding read_codes
read_response [] = (0, [])
read_response (count ∷ rest) = (count, read_codes rest)

module _ {F : Type 0} where
  mode03_bytes :
      (e : Ecu F)
      → length (get_dtcs e true) ≤ 255
      → handle_mode03 e ≡ length (get_dtcs e true) ∷ dtc_bytes (get_dtcs e true)
  unfolding handle_mode03
  mode03_bytes e few =
      let same : min (length (get_dtcs e true)) 255 ≡ length (get_dtcs e true) = omega arith in
      rw (same, take_all (length (get_dtcs e true)) (get_dtcs e true) (omega arith))
        (ap (λ n. n ∷ dtc_bytes (get_dtcs e true)) (omega arith))

  -- With at most 255 active codes of 16 bits, a tester that reads the frame sent as the answer to mode 03 finds
  -- the number of the active codes, and of the codes themselves exactly the first three, in order.
  pub mode03_read :
      (e : Ecu F)
      → length (get_dtcs e true) ≤ 255
      → All (λ d. code_of d < 65536) (get_dtcs e true)
      → read_response (frame_payload (make_frame e.rx_id (handle_mode03 e) false))
        ≡ (length (get_dtcs e true), take 3 (map code_of (get_dtcs e true)))
  unfolding read_response
  mode03_read e few small =
      ap read_response
        ((make_frame_lem e.rx_id (handle_mode03 e) false).0 ∙ ap (take 8) (mode03_bytes e few))
      ∙ ap (λ cs. (length (get_dtcs e true), cs)) (read-cut_bytes 3 (get_dtcs e true) small)

pub find_dtc : List DtcInfo → ℕ → Option DtcInfo
find_dtc [] code = none
find_dtc (d ∷ ds) code = if d.code == code then some d else find_dtc ds code

pub ActiveAt : List DtcInfo → ℕ → Type 0
ActiveAt ds code = (d : DtcInfo) × (find_dtc ds code ≡ some d) × (d.is_pending ≡ false)

find-set_other :
    (ds : List DtcInfo) (code other : ℕ) (text : String) (pending : Bool)
    → other ≢ code
    → find_dtc (set_dtc ds code text pending) other ≡ find_dtc ds other
unfolding find_dtc set_dtc
find-set_other [] code other text pending h = ground (arith, h)
find-set_other (d ∷ ds) code other text pending h =
    ground (arith, h, find-set_other ds code other text pending h)

apart :
    (other c : ℕ) (cs : List ℕ)
    → is_code_of other (c ∷ cs) ≡ false
    → (other ≢ c) × (is_code_of other cs ≡ false)
apart other c cs h = ground (arith, h)

find-set_codes :
    (codes : List ℕ) (ds : List DtcInfo) (texts : List String) (other : ℕ)
    → is_code_of other codes ≡ false
    → find_dtc (set_codes ds codes texts) other ≡ find_dtc ds other
unfolding set_codes
find-set_codes [] ds texts other h = refl
find-set_codes (c ∷ cs) ds [] other h =
    find-set_codes cs (set_dtc ds c "Profile fault" false) [] other (apart other c cs h).1
    ∙ find-set_other ds c other "Profile fault" false (apart other c cs h).0
find-set_codes (c ∷ cs) ds (t ∷ ts) other h =
    find-set_codes cs (set_dtc ds c t false) ts other (apart other c cs h).1
    ∙ find-set_other ds c other t false (apart other c cs h).0

code_differs :
    (c other : ℕ) (codes : List ℕ)
    → is_code_of c codes ≡ true
    → is_code_of other codes ≡ false
    → (c == other) ≡ false
code_differs c other codes e h = elim (Bool-cases (c == other)) [
  | inl same ↦
      absurd (true_not_false (sym e ∙ ap (λ x. is_code_of x codes) ((==_iff c other).0 same) ∙ h))
  | inr differs ↦ differs
]

find-drop_codes :
    (codes : List ℕ) (ds : List DtcInfo) (other : ℕ)
    → is_code_of other codes ≡ false
    → find_dtc (drop_codes codes ds) other ≡ find_dtc ds other
unfolding find_dtc drop_codes
find-drop_codes codes [] other h = refl
find-drop_codes codes (d ∷ ds) other h = elim (Bool-cases (is_code_of d.code codes)) [
  | inl e ↦
      let differs = code_differs d.code other codes e h in
      rw (e, if◌then◌else◌, differs) (find-drop_codes codes ds other h)
  | inr e ↦ rw (e, if◌then◌else◌, find-drop_codes codes ds other h) refl
]

set-ActiveAt :
    (ds : List DtcInfo) (code : ℕ) (text : String) → ActiveAt (set_dtc ds code text false) code
unfolding ActiveAt find_dtc set_dtc
set-ActiveAt [] code text =
    rw ((==_iff code code).1 refl, if◌then◌else◌)
      (
        record {
          code = code;
          description = text;
          is_pending = false;
          is_permanent = false;
          severity = "minor";
        },
        refl,
        refl,
      )
set-ActiveAt (d ∷ ds) code text = elim (Bool-cases (d.code == code)) [
  | inl e ↦ rw (e, if◌then◌else◌, e) (record d { is_pending = false }, refl, refl)
  | inr e ↦ rw (e, if◌then◌else◌, e) (set-ActiveAt ds code text)
]

set-ActiveAt_any :
    (ds : List DtcInfo) (c code : ℕ) (text : String)
    → ActiveAt ds code
    → ActiveAt (set_dtc ds c text false) code
unfolding ActiveAt
set-ActiveAt_any ds c code text h = elim (Bool-cases (code == c)) [
  | inl e ↦
      subst (λ x. ActiveAt (set_dtc ds c text false) x) (sym ((==_iff code c).0 e))
        (set-ActiveAt ds c text)
  | inr e ↦ (
    h.0,
    find-set_other ds c code text false (λ same. true_not_false (sym ((==_iff code c).1 same) ∙ e))
        ∙ h.1,
    h.2,
  )
]

set_codes-keep :
    (codes : List ℕ) (ds : List DtcInfo) (texts : List String) (code : ℕ)
    → ActiveAt ds code
    → ActiveAt (set_codes ds codes texts) code
unfolding set_codes
set_codes-keep [] ds texts code h = h
set_codes-keep (c ∷ cs) ds [] code h =
    set_codes-keep cs (set_dtc ds c "Profile fault" false) [] code
      (set-ActiveAt_any ds c code "Profile fault" h)
set_codes-keep (c ∷ cs) ds (t ∷ ts) code h =
    set_codes-keep cs (set_dtc ds c t false) ts code (set-ActiveAt_any ds c code t h)

-- The first code of a list, or one of the others.
first_or_rest :
    (code c : ℕ) (cs : List ℕ)
    → is_code_of code (c ∷ cs) ≡ true
    → (c ≡ code) ⊎ (is_code_of code cs ≡ true)
first_or_rest code c cs h = elim (Bool-cases (code == c)) [
  | inl e ↦ inl (sym ((==_iff code c).0 e))
  | inr e ↦ inr (ground (arith, h, e))
]

set_codes-ActiveAt :
    (codes : List ℕ) (ds : List DtcInfo) (texts : List String) (code : ℕ)
    → is_code_of code codes ≡ true
    → ActiveAt (set_codes ds codes texts) code
unfolding set_codes
set_codes-ActiveAt [] ds texts code h = absurd (true_not_false (sym h))
set_codes-ActiveAt (c ∷ cs) ds [] code h = elim (first_or_rest code c cs h) [
  | inl e ↦ set_codes-keep cs (set_dtc ds c "Profile fault" false) [] code (
      subst (λ x. ActiveAt (set_dtc ds c "Profile fault" false) x) e
        (set-ActiveAt ds c "Profile fault"))
  | inr rest ↦ set_codes-ActiveAt cs (set_dtc ds c "Profile fault" false) [] code rest
]
set_codes-ActiveAt (c ∷ cs) ds (t ∷ ts) code h = elim (first_or_rest code c cs h) [
  | inl e ↦
      set_codes-keep cs (set_dtc ds c t false) ts code
        (subst (λ x. ActiveAt (set_dtc ds c t false) x) e (set-ActiveAt ds c t))
  | inr rest ↦ set_codes-ActiveAt cs (set_dtc ds c t false) ts code rest
]

module _ {F : Type 0} where
  applied :
      (e : Ecu F) (p : VehicleProfile F)
      → get_current_profile e.profile_manager ≡ some p
      → (apply_profile_dtcs e).0.dtcs
        ≡ set_codes (drop_codes p.active_dtcs e.dtcs) p.active_dtcs p.dtc_descriptions
  unfolding apply_profile_dtcs
  applied e p h = rw (apply_profile_dtcs, h) refl

  -- Applying the current profile makes each of its codes active.
  pub profile-ActiveAt :
      (e : Ecu F) (p : VehicleProfile F) (code : ℕ)
      → get_current_profile e.profile_manager ≡ some p
      → is_code_of code p.active_dtcs ≡ true
      → ActiveAt (apply_profile_dtcs e).0.dtcs code
  profile-ActiveAt e p code h among = rw (applied e p h) (
      set_codes-ActiveAt p.active_dtcs (drop_codes p.active_dtcs e.dtcs) p.dtc_descriptions code
        among)

  -- Applying the current profile keeps the entry of every code that is not the profile's own, the codes of
  -- the profile before it included.
  pub profile_keeps :
      (e : Ecu F) (p : VehicleProfile F) (other : ℕ)
      → get_current_profile e.profile_manager ≡ some p
      → is_code_of other p.active_dtcs ≡ false
      → find_dtc (apply_profile_dtcs e).0.dtcs other ≡ find_dtc e.dtcs other
  profile_keeps e p other h apart_from =
      ap (λ ds. find_dtc ds other) (applied e p h)
      ∙ find-set_codes p.active_dtcs (drop_codes p.active_dtcs e.dtcs) p.dtc_descriptions other
          apart_from
      ∙ find-drop_codes p.active_dtcs e.dtcs other apart_from

  -- After mode 04 every mode that reports trouble codes reports none, and modes 07 and 0A, for pending and
  -- permanent codes, always report what mode 03 does.
  pub mode04_clears :
      (e : Ecu F) (zero_float : F)
      → (handle_mode03 (handle_mode04 zero_float e).0 ≡ 0 ∷ [])
        × (handle_mode07 e ≡ handle_mode03 e)
        × (handle_mode0a e ≡ handle_mode03 e)
  unfolding handle_mode03 handle_mode04 handle_mode07 handle_mode0a get_dtcs dtc_bytes
  mode04_clears e zero_float = (refl, refl, refl)
