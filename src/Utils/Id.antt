-- ===== src/Utils/Id.antt =====
-- pkg/utils/id/id.go: the key under which the store keeps a UE.
use onos_mho.Base.{
  ℕ, ◌+◌, ◌*◌, ◌%◌, ◌^◌, ◌≤◌, ◌<◌, ◌≡◌, refl, ◌∙◌, sym, ap, ◌≢◌, zero, suc, Text, codes, length, [],
  ◌∷◌, ◌++◌, All, All-map, split_at, append_cancel_left, arith,
}
use onos_mho.Utils.Format.{ℤ, hex, hex_int, hex-All, hex-injective, hex_int-injective}
use onos_mho.Utils.Ies.{Ies}

-- The loop of `bytesToUint64`: `uint64` wraps after the shift and after the sum.
unfoldable pub accumulate : ℕ → Text → ℕ
accumulate result [] = result
accumulate result (e ∷ b) = accumulate ((result * 2 ^ 8 % 2 ^ 64 + e) % 2 ^ 64) b

unfoldable pub bytes_to_uint64 : Text → ℕ
unfolding accumulate
bytes_to_uint64 b = accumulate 0 b

-- The format of the key.
unfoldable pub format_key : ℕ → ℕ → ℕ → ℕ → ℤ → Text
format_key plmn_id amf_region_id amf_set_id amf_pointer amf_ue_ngap_id =
    codes "plmnID:"
    ++ (hex plmn_id
        ++ (codes "/amfRegionID:"
            ++ (hex amf_region_id
                ++ (codes "/amfSetID:"
                    ++ (hex amf_set_id
                        ++ (codes "/amfPointer:"
                            ++ (hex amf_pointer
                                ++ (codes "/amfUeNgapID:" ++ hex_int amf_ue_ngap_id))))))))

unfoldable pub generate_gnb_ue_id_string : (ies : Ies) → ies.UeidGnb → Text
generate_gnb_ue_id_string ies ueid =
    format_key (bytes_to_uint64 (ies.plmn_identity ueid)) (bytes_to_uint64 (ies.amf_region_id ueid))
      (bytes_to_uint64 (ies.amf_set_id ueid)) (bytes_to_uint64 (ies.amf_pointer ueid))
      (ies.amf_ue_ngap_id ueid)

-- The number that the bytes write in base 256, after `result`.
abbrev pub big_endian : ℕ → Text → ℕ
big_endian result [] = result
big_endian result (e ∷ b) = big_endian (result * 256 + e) b

accumulate-mod : (r : ℕ) (b : Text) → accumulate (r % 2 ^ 64) b ≡ big_endian r b % 2 ^ 64
unfolding accumulate
accumulate-mod r [] = refl
accumulate-mod r (e ∷ b) = ap (λ t. accumulate t b) (omega arith) ∙ accumulate-mod (r * 256 + e) b

-- `bytesToUint64` is the big-endian value of the bytes, wrapped at 64 bits.
pub bytes_to_uint64_lem : (b : Text) → bytes_to_uint64 b ≡ big_endian 0 b % 2 ^ 64
unfolding bytes_to_uint64
bytes_to_uint64_lem b = accumulate-mod 0 b

abbrev pub AreBytes : Text → Type 0
AreBytes = All (λ c. c < 256)

big_endian-injective :
    (r r' : ℕ) (b b' : Text)
    → AreBytes b
    → AreBytes b'
    → length b ≡ length b'
    → big_endian r b ≡ big_endian r' b'
    → (r ≡ r') × (b ≡ b')
big_endian-injective r r' [] [] h h' l e = (e, refl)
big_endian-injective r r' [] (c ∷ b') h h' l e = absurd (omega arith)
big_endian-injective r r' (c ∷ b) [] h h' l e = absurd (omega arith)
big_endian-injective r r' (c ∷ b) (c' ∷ b') h h' l e =
    let (same, rest) =
      big_endian-injective (r * 256 + c) (r' * 256 + c') b b' h.1 h'.1 (omega arith) e in
    let first : c ≡ c' = omega arith in (omega arith, cc)

-- How many numbers `length b` bytes can write.
abbrev capacity : Text → ℕ
capacity [] = 1
capacity (c ∷ b) = 256 * capacity b

abbrev pow256 : ℕ → ℕ
pow256 zero = 1
pow256 (suc n) = 256 * pow256 n

capacity-le : (n : ℕ) (b : Text) → length b ≤ n → capacity b ≤ pow256 n
capacity-le zero [] h = omega arith
capacity-le zero (c ∷ b) h = absurd (omega arith)
capacity-le (suc n) [] h = omega (arith, capacity-le n [] (omega arith))
capacity-le (suc n) (c ∷ b) h = omega (arith, capacity-le n b (omega arith))

big_endian-lt : (r k : ℕ) (b : Text) → AreBytes b → (r + 1) * capacity b ≤ k → big_endian r b < k
big_endian-lt r k [] h e = omega arith
big_endian-lt r k (c ∷ b) h e =
    let room : (c + 1) * capacity b ≤ 256 * capacity b = grind (arith, h.0) in
    big_endian-lt (r * 256 + c) k b h.1 (omega arith)

-- Two byte strings of one length, of at most eight bytes, that give the same number are equal. (A
-- longer one wraps, and `[0, 1]` gives the number of `[1]`.)
pub bytes_to_uint64-injective :
    (b b' : Text)
    → AreBytes b
    → AreBytes b'
    → length b ≡ length b'
    → length b ≤ 8
    → bytes_to_uint64 b ≡ bytes_to_uint64 b'
    → b ≡ b'
bytes_to_uint64-injective b b' h h' l short e =
    (big_endian-injective 0 0 b b' h h' l (
      omega (
        arith,
        bytes_to_uint64_lem b,
        bytes_to_uint64_lem b',
        big_endian-lt 0 (2 ^ 64) b h (omega (arith, capacity-le 8 b short)),
        big_endian-lt 0 (2 ^ 64) b' h' (omega (arith, capacity-le 8 b' (omega arith))),
      ))).1

no_slash : (n : ℕ) → All (λ c. c ≢ b'/') (hex n)
no_slash n = All-map (λ c. 48 ≤ c) (λ c. c ≢ b'/') (hex n) (λ c h e. omega arith) (hex-All n)

-- Two keys are equal only if all five of the numbers in them are.
format_key-injective :
    (p r s t : ℕ) (u : ℤ) (p' r' s' t' : ℕ) (u' : ℤ)
    → format_key p r s t u ≡ format_key p' r' s' t' u'
    → (p ≡ p') × (r ≡ r') × (s ≡ s') × (t ≡ t') × (u ≡ u')
unfolding format_key
format_key-injective p r s t u p' r' s' t' u' e =
    let (ep, e1) =
      split_at b'/' (hex p) _ (hex p') _ (no_slash p) (no_slash p')
        (append_cancel_left (codes "plmnID:") _ _ e) in
    let (er, e2) =
      split_at b'/' (hex r) _ (hex r') _ (no_slash r) (no_slash r')
        (append_cancel_left (codes "amfRegionID:") _ _ e1) in
    let (es, e3) =
      split_at b'/' (hex s) _ (hex s') _ (no_slash s) (no_slash s')
        (append_cancel_left (codes "amfSetID:") _ _ e2) in
    let (et, e4) =
      split_at b'/' (hex t) _ (hex t') _ (no_slash t) (no_slash t')
        (append_cancel_left (codes "amfPointer:") _ _ e3) in
    (
      hex-injective p p' ep,
      hex-injective r r' er,
      hex-injective s s' es,
      hex-injective t t' et,
      hex_int-injective u u' (append_cancel_left (codes "amfUeNgapID:") _ _ e4),
    )

-- Two gNB UE identities with the same store key agree in the value of each of the five fields that
-- identify a UE: PLMN, AMF region, set and pointer (each wrapped at 64 bits), and the NGAP id.
pub generate_gnb_ue_id_string-injective :
    (ies : Ies) (a b : ies.UeidGnb)
    → generate_gnb_ue_id_string ies a ≡ generate_gnb_ue_id_string ies b
    → (big_endian 0 (ies.plmn_identity a) % 2 ^ 64 ≡ big_endian 0 (ies.plmn_identity b) % 2 ^ 64)
      × (big_endian 0 (ies.amf_region_id a) % 2 ^ 64 ≡ big_endian 0 (ies.amf_region_id b) % 2 ^ 64)
      × (big_endian 0 (ies.amf_set_id a) % 2 ^ 64 ≡ big_endian 0 (ies.amf_set_id b) % 2 ^ 64)
      × (big_endian 0 (ies.amf_pointer a) % 2 ^ 64 ≡ big_endian 0 (ies.amf_pointer b) % 2 ^ 64)
      × (ies.amf_ue_ngap_id a ≡ ies.amf_ue_ngap_id b)
unfolding generate_gnb_ue_id_string
generate_gnb_ue_id_string-injective ies a b e =
    let (p, r, s, t, u) = format_key-injective _ _ _ _ _ _ _ _ _ _ e in
    (
      sym (bytes_to_uint64_lem _) ∙ p ∙ bytes_to_uint64_lem _,
      sym (bytes_to_uint64_lem _) ∙ r ∙ bytes_to_uint64_lem _,
      sym (bytes_to_uint64_lem _) ∙ s ∙ bytes_to_uint64_lem _,
      sym (bytes_to_uint64_lem _) ∙ t ∙ bytes_to_uint64_lem _,
      u,
    )
