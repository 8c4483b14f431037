-- ===== src/Services/Kafka/Texts.antt =====
-- services/kafka/env.go: Decode and String of Version and of Compression. Sarama's constants, the
-- equality of its values, and `strings.ToUpper` and `strings.ToLower` are parameters. A `switch` is
-- the list of its cases, in order.
use bandmaster.Base.{
  String, Bool, true, false, Option, none, some, List, [], ◌∷◌, ◌≡◌, ◌≢◌, ◌↔◌, refl, sym, ap, All,
  Distinct, All-of_in, All-at, not, ◌&&◌, if◌then◌else◌, inl, inr, In, Bool-cases, subst,
}
use bandmaster.Base.Dict.{lookup, lookup-in, in-lookup, keys, values, member, member_iff, in-values}
use bandmaster.Errors.Text.{sprintf}

pub record Versions (V : Type 0) : Type 0 where
  pub v0_8_2_0 : V
  pub v0_8_2_1 : V
  pub v0_8_2_2 : V
  pub v0_9_0_0 : V
  pub v0_9_0_1 : V
  pub v0_10_0_0 : V
  pub v0_10_0_1 : V
  pub v0_10_1_0 : V
  pub v0_10_2_0 : V
  pub v0_11_0_0 : V
  pub v1_0_0_0 : V

pub record Codecs (V : Type 0) : Type 0 where
  pub uncompressed : V
  pub snappy : V
  pub lz4 : V
  pub gzip : V

-- The versions and the codecs of sarama that the two types are for.
abbrev pub versions_of : {V : Type 0} → Versions V → List V
versions_of s =
    s.v0_8_2_0 ∷ s.v0_8_2_1 ∷ s.v0_8_2_2 ∷ s.v0_9_0_0 ∷ s.v0_9_0_1 ∷ s.v0_10_0_0 ∷ s.v0_10_0_1
    ∷ s.v0_10_1_0 ∷ s.v0_10_2_0 ∷ s.v0_11_0_0 ∷ s.v1_0_0_0 ∷ []

abbrev pub codecs_of : {V : Type 0} → Codecs V → List V
codecs_of s = s.uncompressed ∷ s.snappy ∷ s.lz4 ∷ s.gzip ∷ []

-- The cases of the switch of `Version.String`, each a value with its text.
abbrev pub version_texts : {V : Type 0} → Versions V → List (String × V)
version_texts s =
    ("V0_8_2_0", s.v0_8_2_0)
    ∷ ("V0_8_2_1", s.v0_8_2_1)
    ∷ ("V0_8_2_2", s.v0_8_2_2)
    ∷ ("V0_9_0_0", s.v0_9_0_0)
    ∷ ("V0_9_0_1", s.v0_9_0_1)
    ∷ ("V0_10_0_0", s.v0_10_0_0)
    ∷ ("V0_10_0_1", s.v0_10_0_1)
    ∷ ("V0_10_1_0", s.v0_10_1_0)
    ∷ ("V0_10_2_0", s.v0_10_2_0)
    ∷ ("V0_11_0_0", s.v0_11_0_0)
    ∷ ("V1_0_0_0", s.v1_0_0_0)
    ∷ []

-- The cases of the switch of `Version.Decode`, each a text with its value.
abbrev pub version_values : {V : Type 0} → Versions V → List (String × V)
version_values s =
    ("V0_8_2_0", s.v0_8_2_0)
    ∷ ("V0_8_2_1", s.v0_8_2_1)
    ∷ ("V0_8_2_2", s.v0_8_2_2)
    ∷ ("V0_9_0_0", s.v0_9_0_0)
    ∷ ("V0_9_0_1", s.v0_9_0_1)
    ∷ ("V0_10_0_0", s.v0_10_0_0)
    ∷ ("V0_10_0_1", s.v0_10_0_1)
    ∷ ("V0_10_1_0", s.v0_10_1_0)
    ∷ ("V0_10_2_0", s.v0_10_2_0)
    ∷ ("V0_11_0_0", s.v0_11_0_0)
    ∷ ("V1_0_0_0", s.v1_0_0_0)
    ∷ []

-- The same of `Compression.String` and of `Compression.Decode`.
abbrev pub codec_texts : {V : Type 0} → Codecs V → List (String × V)
codec_texts s =
    ("none", s.uncompressed) ∷ ("snappy", s.snappy) ∷ ("lz4", s.lz4) ∷ ("gzip", s.gzip) ∷ []

abbrev pub codec_values : {V : Type 0} → Codecs V → List (String × V)
codec_values s =
    ("none", s.uncompressed) ∷ ("snappy", s.snappy) ∷ ("lz4", s.lz4) ∷ ("gzip", s.gzip) ∷ []

-- No text stands twice, as a test.
distinct : List String → Bool
distinct [] = true
distinct (t ∷ ts) = not (member t ts) && distinct ts

distinct-Distinct : (ts : List String) → distinct ts ≡ true → Distinct ts
unfolding distinct
distinct-Distinct [] h = tt
distinct-Distinct (t ∷ ts) h = elim (Bool-cases (member t ts)) [
  | inl e ↦ let h' : false ≡ true = rw e at h in cc
  | inr e ↦
      let h' : distinct ts ≡ true = rw e at h in
      (
        All-of_in (λ y. t ≢ y) ts (λ a m same. cc (e, (member_iff t ts).1 (rw same m))),
        distinct-Distinct ts h',
      )
]

version_values-Distinct : {V : Type 0} (s : Versions V) → Distinct (keys (version_values s))
unfolding distinct member
version_values-Distinct s = distinct-Distinct (keys (version_values s)) refl

codec_values-Distinct : {V : Type 0} (s : Codecs V) → Distinct (keys (codec_values s))
unfolding distinct member
codec_values-Distinct s = distinct-Distinct (keys (codec_values s)) refl

-- Each text of the one switch has its own value in the other, and the other way round.
versions_agree : {V : Type 0} (s : Versions V) → version_texts s ≡ version_values s
versions_agree s = refl

codecs_agree : {V : Type 0} (s : Codecs V) → codec_texts s ≡ codec_values s
codecs_agree s = refl

module _ {V : Type 0} (same : V → V → Bool) where
  -- A `switch` on a value that returns the text of its case, and "Unknown" behind it.
  unfoldable pub text_of : List (String × V) → V → String
  text_of [] v = "Unknown"
  text_of ((text, c) ∷ cases) v = if same v c then text else text_of cases v

  unfoldable pub version_string : Versions V → V → String
  version_string s v = text_of (version_texts s) v

  unfoldable pub codec_string : Codecs V → V → String
  codec_string s v = text_of (codec_texts s) v

  -- The end of a `Decode`: its error, and the value behind it.
  unfoldable pub decoded : String → V → Option V → Option String × V
  decoded err old (some c) = (none, c)
  decoded err old none = (some err, old)

  -- The text of the error has the value from before the call, not the text that was not read.
  unfoldable pub version_decode : Versions V → (String → String) → String → V → Option String × V
  version_decode s to_upper vv v =
      decoded (sprintf ("`" ∷ version_string s v ∷ "`: unsupported version" ∷ [])) v
        (lookup (to_upper vv) (version_values s))

  unfoldable pub codec_decode : Codecs V → (String → String) → String → V → Option String × V
  codec_decode s to_lower v sccd =
      decoded (sprintf ("`" ∷ v ∷ "`: unsupported compression codec" ∷ [])) sccd
        (lookup (to_lower v) (codec_values s))

  decoded-none :
      (err : String) (old v : V) (r : Option V) → decoded err old r ≡ (none, v) → r ≡ some v
  unfolding decoded
  decoded-none err old v (some c) h = ap (λ r. some r.1) h
  decoded-none err old v none h = let bad = ap (λ r. r.0) h in cc

  module _ (same_iff : (v c : V) → (same v c ≡ true) ↔ (v ≡ c)) where
    values-of_in :
        (cases : List (String × V)) (text : String) (v : V)
        → In (text, v) cases
        → In v (values cases)
    values-of_in [] text v m = absurd m
    values-of_in ((t, c) ∷ cases) text v (inl e) = inl (ap (λ r. r.1) e)
    values-of_in ((t, c) ∷ cases) text v (inr m) = inr (values-of_in cases text v m)

    not_same : (v c : V) → c ≢ v → same v c ≡ false
    not_same v c h = elim (Bool-cases (same v c)) [
      | inl e ↦ absurd (h (sym ((same_iff v c).0 e)))
      | inr e ↦ e
    ]

    text_of-in :
        (cases : List (String × V)) (text : String) (v : V)
        → Distinct (values cases)
        → In (text, v) cases
        → text_of cases v ≡ text
    unfolding text_of
    text_of-in [] text v d m = absurd m
    text_of-in ((t, c) ∷ cases) text v d (inl e) =
        rw ((same_iff v c).1 (ap (λ r. r.1) e)) (sym (ap (λ r. r.0) e))
    text_of-in ((t, c) ∷ cases) text v d (inr m) =
        rw (not_same v c (All-at (λ y. c ≢ y) (values cases) d.0 v (values-of_in cases text v m)))
          (text_of-in cases text v d.1 m)

    -- A switch `shows` and a switch `reads` with the same cases.
    module _ (shows reads : List (String × V)) (agree : shows ≡ reads)
        (texts_once : Distinct (keys reads)) (values_once : Distinct (values shows)) where
      read_back :
          (fold : String → String) (v : V)
          → In v (values shows)
          → fold (text_of shows v) ≡ text_of shows v
          → lookup (fold (text_of shows v)) reads ≡ some v
      read_back fold v m folds =
          let (text, entry) = in-values shows v m in
          let shown = text_of-in shows text v values_once entry in
          rw (folds, shown)
            (in-lookup text reads v texts_once (subst (λ cs. In (text, v) cs) agree entry))

      read_from : (text : String) (v : V) → lookup text reads ≡ some v → text_of shows v ≡ text
      read_from text v e =
          text_of-in shows text v values_once
            (subst (λ cs. In (text, v) cs) (sym agree) (lookup-in text reads v e))

    -- If sarama's versions differ, and upper-casing leaves the texts that `String` has for them, which
    -- are in upper case, as they are: `Decode` reads the text of each version back without an error,
    -- whatever the version was before, and whatever `Decode` accepts, in any case of letters, `String`
    -- gives back in upper case.
    pub version_round_trip :
        (s : Versions V) (to_upper : String → String)
        → Distinct (versions_of s)
        → All (λ v. to_upper (version_string s v) ≡ version_string s v) (versions_of s)
        → ((v old : V)
            → In v (versions_of s)
            → version_decode s to_upper (version_string s v) old ≡ (none, v))
          × ((vv : String) (v old : V)
              → version_decode s to_upper vv old ≡ (none, v)
              → version_string s v ≡ to_upper vv)
    unfolding version_string version_decode decoded
    version_round_trip s to_upper once upper = (
      λ v old m. ap (decoded _ old) (
          read_back (version_texts s) (version_values s) (versions_agree s)
            (version_values-Distinct s) once to_upper v m
            (All-at (λ v. to_upper (version_string s v) ≡ version_string s v) (versions_of s) upper
              v m)),
      λ vv v old accepted.
          read_from (version_texts s) (version_values s) (versions_agree s)
            (version_values-Distinct s) once (to_upper vv) v
            (decoded-none _ old v (lookup (to_upper vv) (version_values s)) accepted),
    )

    -- The same of compression codecs and lower-casing.
    pub codec_round_trip :
        (s : Codecs V) (to_lower : String → String)
        → Distinct (codecs_of s)
        → All (λ v. to_lower (codec_string s v) ≡ codec_string s v) (codecs_of s)
        → ((v old : V)
            → In v (codecs_of s)
            → codec_decode s to_lower (codec_string s v) old ≡ (none, v))
          × ((text : String) (v old : V)
              → codec_decode s to_lower text old ≡ (none, v)
              → codec_string s v ≡ to_lower text)
    unfolding codec_string codec_decode decoded
    codec_round_trip s to_lower once lower = (
      λ v old m. ap (decoded _ old) (
          read_back (codec_texts s) (codec_values s) (codecs_agree s) (codec_values-Distinct s) once
            to_lower v m
            (All-at (λ v. to_lower (codec_string s v) ≡ codec_string s v) (codecs_of s) lower v m)),
      λ text v old accepted.
          read_from (codec_texts s) (codec_values s) (codecs_agree s) (codec_values-Distinct s) once
            (to_lower text) v
            (decoded-none _ old v (lookup (to_lower text) (codec_values s)) accepted),
    )
