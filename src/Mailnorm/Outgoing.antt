-- ===== src/Mailnorm/Outgoing.antt =====
-- The header that `Parse` writes, as far as it changes the one that it has read.
use relais.Base.{Bool, ◌≡◌, refl, ◌∙◌, ap, inl, inr, false, arith, is_empty, equal, Bool-cases}
use relais.Text.{Text, codes, is_space, trim_left, trim_right, trim_space, to_lower, lower_rune}
use relais.FromPattern.Normalize.{Idna}
use relais.Mailnorm.{Headers, Options, generate_message_id}
use relais.Mailnorm.Parse.{lacks, strip_bcc, with_message_id, with_date, outgoing}

-- A header's names are compared without regard to the case of their letters.
abbrev pub same_name : Text → Text → Bool
same_name n m = equal (to_lower (λ c. c) n) (to_lower (λ c. c) m)

-- What is assumed of `textproto.Header`: deleting a field leaves none of its name, setting one
-- gives it the value, and fields of other names stay.
pub record IsHeaders {H : Type 0} (h : Headers H) : Type 0 where
  pub del_has : (x : H) (n : Text) → h.has (h.del x n) n ≡ false
  pub set_has : (x : H) (n m v : Text) → same_name n m ≡ false → h.has (h.set x n v) m ≡ h.has x m
  pub set_same : (x : H) (n v : Text) → h.value (h.set x n v) n ≡ v
  pub set_other :
      (x : H) (n m v : Text) → same_name n m ≡ false → h.value (h.set x n v) m ≡ h.value x m

generated-nonblank :
    (id domain : Text) → is_empty (trim_space (generate_message_id id domain)) ≡ false
unfolding generate_message_id trim_space trim_left trim_right is_space
generated-nonblank id domain = ground arith

module _ (u : Idna) {H : Type 0} (h : Headers H) (law : IsHeaders h) where
  strip_bcc-has : (x : H) → h.has (strip_bcc u h x) (codes "Bcc") ≡ false
  unfolding strip_bcc
  strip_bcc-has x = ground (arith, law.del_has x (codes "Bcc"))

  with_message_id-has :
      (o : Options) (domain : Text) (x : H)
      → h.has (with_message_id u h o domain x).1 (codes "Bcc") ≡ h.has x (codes "Bcc")
  unfolding with_message_id lower_rune
  with_message_id-has o domain x =
      let made = generate_message_id o.new_id domain in
      ground (arith, law.set_has x (codes "Message-Id") (codes "Bcc") made refl)

  with_message_id-named :
      (o : Options) (domain : Text) (x : H)
      → lacks u h (with_message_id u h o domain x).1 (codes "Message-Id") ≡ false
  unfolding with_message_id
  with_message_id-named o domain x = elim (Bool-cases (lacks u h x (codes "Message-Id"))) [
    | inl missing ↦
        let made = generate_message_id o.new_id domain in
        rw missing (
          ap (λ v. is_empty (trim_space v)) (law.set_same x (codes "Message-Id") made)
          ∙ generated-nonblank o.new_id domain)
    | inr there ↦ rw there there
  ]

  with_date-has :
      (o : Options) (x : H) → h.has (with_date u h o x) (codes "Bcc") ≡ h.has x (codes "Bcc")
  unfolding with_date lower_rune
  with_date-has o x = ground (arith, law.set_has x (codes "Date") (codes "Bcc") o.date refl)

  with_date-value :
      (o : Options) (x : H)
      → h.value (with_date u h o x) (codes "Message-Id") ≡ h.value x (codes "Message-Id")
  unfolding with_date lower_rune
  with_date-value o x =
      ground (arith, law.set_other x (codes "Date") (codes "Message-Id") o.date refl)

  with_date-dated :
      (o : Options) (x : H)
      → is_empty (trim_space o.date) ≡ false
      → lacks u h (with_date u h o x) (codes "Date") ≡ false
  unfolding with_date
  with_date-dated o x dated = elim (Bool-cases (lacks u h x (codes "Date"))) [
    | inl missing ↦
        rw missing
          (ap (λ v. is_empty (trim_space v)) (law.set_same x (codes "Date") o.date) ∙ dated)
    | inr there ↦ rw there there
  ]

  -- The header that `Parse` writes has no Bcc field, and a Message-Id and a Date that are not
  -- blank, when the current date is not blank and deleting and setting a field of the header
  -- library do what they say of the field, and leave the fields whose names differ in more than
  -- the case of letters.
  pub outgoing-Complete :
      (o : Options) (domain : Text) (x : H)
      → is_empty (trim_space o.date) ≡ false
      → (h.has (outgoing u h o domain x) (codes "Bcc") ≡ false)
        × (lacks u h (outgoing u h o domain x) (codes "Message-Id") ≡ false)
        × (lacks u h (outgoing u h o domain x) (codes "Date") ≡ false)
  outgoing-Complete o domain x dated =
      let stripped = strip_bcc u h x in
      let named = (with_message_id u h o domain stripped).1 in
      (
        with_date-has o named ∙ (with_message_id-has o domain stripped ∙ strip_bcc-has x),
        ap (λ v. is_empty (trim_space v)) (with_date-value o named)
            ∙ with_message_id-named o domain stripped,
        with_date-dated o named dated,
      )
