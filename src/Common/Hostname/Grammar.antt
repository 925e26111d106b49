-- ===== src/Common/Hostname/Grammar.antt =====
-- The hostnames of `validate_hostname_syntax`, described as dotted labels.
use tailroute.Base.{
  ℕ, ◌≤◌, ◌≡◌, refl, ap, ◌≢◌, ◌↔◌, true, false, ◌||◌, List, [], ◌∷◌, ◌++◌, ok, >>=-eq-ok, arith,
  nat_eq, All,
}
use tailroute.Base.Text.{
  Text, byte_len, split, join, starts_with_char, ends_with_char, is_ascii_alphanumeric,
}
use tailroute.Base.{◌∙◌, sym, All-imp}
use tailroute.Base.Text.Split.{NoSep, split-cons, join-split, split-join}
use tailroute.Common.Hostname.{check_chars, check_label, check_labels, validate_hostname_syntax}

-- A letter, a digit or a hyphen.
abbrev pub IsLabelChar : ℕ → Type 0
IsLabelChar c = (is_ascii_alphanumeric c || nat_eq c b'-') ≡ true

pub record IsLabel (label : Text) : Type 0 where
  pub nonempty : label ≢ []
  pub short : byte_len label ≤ 63
  pub no_hyphen_first : starts_with_char b'-' label ≡ false
  pub no_hyphen_last : ends_with_char b'-' label ≡ false
  pub chars : All IsLabelChar label

-- One or more labels, joined by dots, of 253 bytes at most.
pub record IsHostname (host : Text) : Type 0 where
  pub short : byte_len host ≤ 253
  pub first : Text
  pub others : List Text
  pub labelled : All IsLabel (first ∷ others)
  pub joined : host ≡ join (b'.' ∷ []) (first ∷ others)

check_chars_iff : (s : Text) → (check_chars s ≡ ok tt) ↔ All IsLabelChar s
unfolding check_chars
check_chars_iff [] = (λ _. tt, λ _. refl)
check_chars_iff (c ∷ s) = ground (arith, check_chars_iff s)

check_label_sound : (label : Text) → check_label label ≡ ok tt → IsLabel label
unfolding check_label
check_label_sound [] h = cc
check_label_sound (c ∷ s) h = record {
  nonempty = λ e. cc;
  short = ground arith;
  no_hyphen_first = ground arith;
  no_hyphen_last = ground arith;
  chars = (check_chars_iff (c ∷ s)).0 (ground arith);
}

check_label_complete : (label : Text) → IsLabel label → check_label label ≡ ok tt
unfolding check_label
check_label_complete [] l = absurd (l.nonempty refl)
check_label_complete (c ∷ s) l =
    ground
      (arith, l.short, l.no_hyphen_first, l.no_hyphen_last, (check_chars_iff (c ∷ s)).1 l.chars)

check_labels_iff : (labels : List Text) → (check_labels labels ≡ ok tt) ↔ All IsLabel labels
unfolding check_labels
check_labels_iff [] = (λ _. tt, λ _. refl)
check_labels_iff (l ∷ ls) = (
  λ h.
      let (u, p, q) = >>=-eq-ok (check_label l) (λ _. check_labels ls) h in
      (check_label_sound l p, (check_labels_iff ls).0 q),
  λ (p, q). rw (check_label_complete l p) ((check_labels_iff ls).1 q),
)

-- A label has no dot.
label_char-ne-dot : (c : ℕ) → IsLabelChar c → nat_eq b'.' c ≡ false
label_char-ne-dot c h = ground arith

IsLabel-NoSep : (l : Text) → IsLabel l → NoSep b'.' l
IsLabel-NoSep l h = All-imp label_char-ne-dot l h.chars

-- The last character of a text of labels is that of its last label.
ends_with_char-append :
    (c : ℕ) (s t : Text) → t ≢ [] → ends_with_char c (s ++ t) ≡ ends_with_char c t
unfolding ends_with_char
ends_with_char-append c [] t h = refl
ends_with_char-append c (x ∷ []) [] h = absurd (h refl)
ends_with_char-append c (x ∷ []) (d ∷ t) h = refl
ends_with_char-append c (x ∷ y ∷ s) t h = ends_with_char-append c (y ∷ s) t h

ends_with_char-dot : (l : Text) → All IsLabelChar l → ends_with_char b'.' l ≡ false
unfolding ends_with_char
ends_with_char-dot [] h = refl
ends_with_char-dot (c ∷ []) (p, _) = label_char-ne-dot c p
ends_with_char-dot (c ∷ d ∷ s) (_, h) = ends_with_char-dot (d ∷ s) h

join-ne-nil : (l : Text) (ls : List Text) → l ≢ [] → join (b'.' ∷ []) (l ∷ ls) ≢ []
unfolding join
join-ne-nil [] ls h e = h refl
join-ne-nil (c ∷ l) [] h e = cc
join-ne-nil (c ∷ l) (m ∷ ls) h e = cc

ends_with_char-join :
    (l : Text) (ls : List Text)
    → All IsLabel (l ∷ ls)
    → ends_with_char b'.' (join (b'.' ∷ []) (l ∷ ls)) ≡ false
unfolding join
ends_with_char-join l [] (p, _) = ends_with_char-dot l p.chars
ends_with_char-join l (m ∷ ls) (_, (p, h)) =
    ends_with_char-append b'.' l _ (λ e. cc)
    ∙ ends_with_char-append b'.' (b'.' ∷ []) _ (join-ne-nil m ls p.nonempty)
    ∙ ends_with_char-join m ls (p, h)

validate_hostname_syntax_sound :
    (host : Text) → validate_hostname_syntax host ≡ ok tt → IsHostname host
validate_hostname_syntax_sound host h =
    let (w, ws, e) = split-cons b'.' host in
    let checked : check_labels (split b'.' host) ≡ ok tt =
      unfold validate_hostname_syntax in ground arith in
    record {
      short = unfold validate_hostname_syntax in ground arith;
      first = w;
      others = ws;
      labelled = (check_labels_iff (w ∷ ws)).0 (rw e at checked);
      joined = sym (join-split b'.' host) ∙ ap (join (b'.' ∷ [])) e;
    }

validate_hostname_syntax_complete :
    (host : Text) → IsHostname host → validate_hostname_syntax host ≡ ok tt
validate_hostname_syntax_complete host h =
    let no_dot : ends_with_char b'.' host ≡ false =
      ap (ends_with_char b'.') h.joined ∙ ends_with_char-join h.first h.others h.labelled in
    let parts : split b'.' host ≡ h.first ∷ h.others =
      ap (split b'.') h.joined
      ∙ split-join b'.' h.first h.others (All-imp IsLabel-NoSep (h.first ∷ h.others) h.labelled) in
    let labels : check_labels (split b'.' host) ≡ ok tt =
      ap check_labels parts ∙ (check_labels_iff (h.first ∷ h.others)).1 h.labelled in
    let s = h.short in unfold validate_hostname_syntax in ground arith

-- `validate_hostname_syntax` accepts exactly the texts of at most 253 bytes that are one or more
-- labels joined by dots, each of 1 to 63 letters, digits and hyphens, with no hyphen at its ends.
pub validate_hostname_syntax_iff :
    (host : Text) → (validate_hostname_syntax host ≡ ok tt) ↔ IsHostname host
validate_hostname_syntax_iff host =
    (validate_hostname_syntax_sound host, validate_hostname_syntax_complete host)
