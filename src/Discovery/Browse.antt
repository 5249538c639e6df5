-- ===== src/Discovery/Browse.antt =====
-- What the application is told of the services that the daemon's library reports.
use local_chat_xxx.Common.{
  [], ap, append-nil, append_assoc, ap₂, arith, drop, drop-append, length, length-append,
  length-replicate, lt→ltb, refl, replicate, suc, sym, take, take-append, true, zero, ℕ, ◌++◌, ◌+◌,
  ◌<◌, ◌==◌, ◌||◌, ◌∙◌, ◌∷◌, ◌≡◌, ◌≤◌,
}
use local_chat_xxx.Discovery.Defs.{
  Reply, browse_instance, copy_field, erase_padding, max_data_size, service_str, strncpy,
}
use local_chat_xxx.Common.Bytes.{
  Avoids, Avoids-append, Bytes, length-overlay, overlay, overlay-drop, overlay_front, write_at,
  write_at_past,
}
use local_chat_xxx.Wire.Defs.{until_nul}
use local_chat_xxx.Wire.Text.{until_nul-append}

-- A field: the text over spaces.
abbrev field : ℕ → Bytes → Bytes
field n text = overlay text (replicate n b' ')

length-field : (n : ℕ) (text : Bytes) → length (field n text) ≡ n
length-field n text = length-overlay text (replicate n b' ') ∙ length-replicate n b' '

-- Only spaces and NULs.
abbrev Padding : Bytes → Type 0
Padding [] = Unit
Padding (b ∷ bs) = ((b == b' ' || b == 0) ≡ true) × Padding bs

erase_padding-all : (bs : Bytes) → Padding bs → erase_padding bs ≡ []
unfolding erase_padding
erase_padding-all [] h = refl
erase_padding-all (b ∷ bs) h = rw (h.0) (erase_padding-all bs h.1)

Padding-drop : (k n : ℕ) → Padding (drop k (replicate n b' '))
Padding-drop zero zero = tt
Padding-drop zero (suc n) = (refl, Padding-drop zero n)
Padding-drop (suc k) zero = tt
Padding-drop (suc k) (suc n) = Padding-drop k n

erase_padding-text :
    (text pad : Bytes)
    → Avoids b' ' text
    → Avoids 0 text
    → Padding pad
    → erase_padding (text ++ pad) ≡ text
unfolding erase_padding
erase_padding-text [] pad s z p = erase_padding-all pad p
erase_padding-text (b ∷ bs) pad s z p =
    let rest = erase_padding-text bs pad s.1 z.1 p in ground (arith, rest)

field_text :
    (n : ℕ) (text : Bytes)
    → length text ≤ n
    → field n text ≡ text ++ drop (length text) (replicate n b' ')
field_text n text h =
    overlay-drop text (replicate n b' ') (omega (arith, length-replicate {A = ℕ} n b' '))

erase_padding-field :
    (n : ℕ) (text more : Bytes)
    → length text ≤ n
    → Avoids b' ' text
    → Avoids 0 text
    → Padding more
    → erase_padding (field n text ++ more) ≡ text
erase_padding-field n text more h s z p =
    ap (λ f. erase_padding (f ++ more)) (field_text n text h)
    ∙ ap erase_padding (append_assoc text (drop (length text) (replicate n b' ')) more)
    ∙ erase_padding-text text _ s z
        (both (drop (length text) (replicate n b' ')) (Padding-drop (length text) n))
  where
    both : (xs : Bytes) → Padding xs → Padding (xs ++ more)
    both [] h = p
    both (x ∷ xs) h = (h.0, both xs h.1)

Avoids-field : (n : ℕ) (text : Bytes) → Avoids 0 text → Avoids 0 (field n text)
Avoids-field zero [] h = tt
Avoids-field zero (x ∷ xs) h = tt
Avoids-field (suc n) [] h = ((λ e. absurd (omega arith)), Avoids-field n [] tt)
Avoids-field (suc n) (x ∷ xs) h = (h.0, Avoids-field n xs h.1)

-- A reply whose texts fit their fields and have neither spaces nor NULs.
pub record IsPlainReply (r : Reply) : Type 0 where
  pub name_short : length r.service_name < 24
  pub type_short : length r.regtype < 24
  pub domain_short : length r.reply_domain < 16
  pub name_solid : Avoids b' ' r.service_name
  pub name_clean : Avoids 0 r.service_name
  pub type_solid : Avoids b' ' r.regtype
  pub type_clean : Avoids 0 r.regtype
  pub domain_solid : Avoids b' ' r.reply_domain
  pub domain_clean : Avoids 0 r.reply_domain

module _ (r : Reply) (h : IsPlainReply r) where
  abbrev two_fields : Bytes
  two_fields = field 24 r.service_name ++ field 24 r.regtype

  abbrev fields : Bytes
  fields = two_fields ++ field 15 r.reply_domain

  length-two_fields : length two_fields ≡ 48
  length-two_fields =
      length-append (field 24 r.service_name) (field 24 r.regtype)
      ∙ ap₂ ◌+◌ (length-field 24 r.service_name) (length-field 24 r.regtype)

  length-fields : length fields ≡ 63
  length-fields =
      length-append two_fields (field 15 r.reply_domain)
      ∙ ap₂ ◌+◌ length-two_fields (length-field 15 r.reply_domain)

  room : (n m : ℕ) (t : Bytes) → length t < n → n ≤ m → length t ≤ length {A = ℕ} (replicate m b' ')
  room n m t a b = omega (arith, length-replicate {A = ℕ} m b' ')

  first_field :
      write_at 0 r.service_name (replicate 64 b' ') ≡ field 24 r.service_name ++ replicate 40 b' '
  first_field =
      overlay_front r.service_name (replicate 24 b' ') (replicate 40 b' ')
        (room 24 24 r.service_name h.name_short (omega arith))

  second_field :
      write_at 24 r.regtype (field 24 r.service_name ++ replicate 40 b' ')
      ≡ two_fields ++ replicate 16 b' '
  second_field =
      write_at_past 24 r.regtype (field 24 r.service_name) (replicate 40 b' ')
        (length-field 24 r.service_name)
      ∙ ap (λ w. field 24 r.service_name ++ w)
          (overlay_front r.regtype (replicate 24 b' ') (replicate 16 b' ')
            (room 24 24 r.regtype h.type_short (omega arith)))
      ∙ sym (append_assoc (field 24 r.service_name) (field 24 r.regtype) (replicate 16 b' '))

  third_field : write_at 48 r.reply_domain (two_fields ++ replicate 16 b' ') ≡ fields ++ (b' ' ∷ [])
  third_field =
      write_at_past 48 r.reply_domain two_fields (replicate 16 b' ') length-two_fields
      ∙ ap (λ w. two_fields ++ w)
          (overlay_front r.reply_domain (replicate 15 b' ') (b' ' ∷ [])
            (omega (arith, length-replicate {A = ℕ} 15 b' ', h.domain_short)))
      ∙ sym (append_assoc two_fields (field 15 r.reply_domain) (b' ' ∷ []))

  service_str-fields : service_str r ≡ fields ++ (0 ∷ [])
  unfolding service_str copy_field
  service_str-fields = rw (lt→ltb _ _ h.name_short) (
      rw (lt→ltb _ _ h.type_short) (
        rw (lt→ltb _ _ h.domain_short) (
          ap (λ w. write_at 63 (0 ∷ []) (write_at 48 r.reply_domain (write_at 24 r.regtype w)))
            first_field
          ∙ ap (λ w. write_at 63 (0 ∷ []) (write_at 48 r.reply_domain w)) second_field
          ∙ ap (write_at 63 (0 ∷ [])) third_field
          ∙ write_at_past 63 (0 ∷ []) fields (b' ' ∷ []) length-fields)))

  fields_clean : Avoids 0 fields
  fields_clean =
      Avoids-append 0 two_fields _
        (Avoids-append 0 (field 24 r.service_name) _ (Avoids-field 24 r.service_name h.name_clean)
          (Avoids-field 24 r.regtype h.type_clean))
        (Avoids-field 15 r.reply_domain h.domain_clean)

  stored : strncpy 256 (service_str r) ≡ fields ++ replicate 193 0
  unfolding strncpy
  stored =
      ap (λ w. take 256 (until_nul w ++ replicate 256 0)) service_str-fields
      ∙ ap (λ w. take 256 (w ++ replicate 256 0)) (until_nul-append fields [] fields_clean)
      ∙ sym (ap (take 256) (append_assoc fields (replicate 193 0) (replicate 63 0)))
      ∙ take-append (fields ++ replicate 193 0) (replicate 63 0) 256 (
          length-append fields (replicate 193 0)
          ∙ ap₂ ◌+◌ length-fields (length-replicate {A = ℕ} 193 0))

  abbrev zeros : Bytes
  zeros = replicate 193 0

  whole :
      fields ++ zeros
      ≡ field 24 r.service_name ++ (field 24 r.regtype ++ (field 15 r.reply_domain ++ zeros))
  whole =
      append_assoc two_fields (field 15 r.reply_domain) zeros
      ∙ append_assoc (field 24 r.service_name) (field 24 r.regtype)
          (field 15 r.reply_domain ++ zeros)

  name_back : erase_padding (take 24 (fields ++ zeros)) ≡ r.service_name
  name_back =
      ap (λ w. erase_padding (take 24 w)) whole
      ∙ ap erase_padding
          (take-append (field 24 r.service_name) _ 24 (length-field 24 r.service_name))
      ∙ ap erase_padding (sym (append-nil (field 24 r.service_name)))
      ∙ erase_padding-field 24 r.service_name [] (omega (arith, h.name_short)) h.name_solid
          h.name_clean tt

  type_back : erase_padding (take 24 (drop 24 (fields ++ zeros))) ≡ r.regtype
  type_back =
      ap (λ w. erase_padding (take 24 (drop 24 w))) whole
      ∙ ap (λ w. erase_padding (take 24 w))
          (drop-append (field 24 r.service_name) _ 24 (length-field 24 r.service_name))
      ∙ ap erase_padding (take-append (field 24 r.regtype) _ 24 (length-field 24 r.regtype))
      ∙ ap erase_padding (sym (append-nil (field 24 r.regtype)))
      ∙ erase_padding-field 24 r.regtype [] (omega (arith, h.type_short)) h.type_solid h.type_clean
          tt

  domain_back : erase_padding (take 16 (drop 48 (fields ++ zeros))) ≡ r.reply_domain
  domain_back =
      ap (λ w. erase_padding (take 16 (drop 48 w)))
        (append_assoc two_fields (field 15 r.reply_domain) zeros)
      ∙ ap (λ w. erase_padding (take 16 w)) (drop-append two_fields _ 48 length-two_fields)
      ∙ ap (λ w. erase_padding (take 16 w))
          (sym (append_assoc (field 15 r.reply_domain) (0 ∷ []) (replicate 192 0)))
      ∙ ap erase_padding (
          take-append (field 15 r.reply_domain ++ (0 ∷ [])) (replicate 192 0) 16 (
            length-append (field 15 r.reply_domain) (0 ∷ [])
            ∙ ap (λ k. k + 1) (length-field 15 r.reply_domain)))
      ∙ erase_padding-field 15 r.reply_domain (0 ∷ []) (omega (arith, h.domain_short))
          h.domain_solid h.domain_clean (refl, tt)

  -- A service whose texts fit their fields and have neither spaces nor NULs is read back as it was
  -- reported.
  pub browse_round_trip : browse_instance (strncpy max_data_size (service_str r)) ≡ record {
    service_name = r.service_name;
    reg_type = r.regtype;
    reply_domain = r.reply_domain;
  }
  unfolding browse_instance
  browse_round_trip = ap browse_instance stored ∙ λ i. record {
    service_name = name_back i;
    reg_type = type_back i;
    reply_domain = domain_back i;
  }
