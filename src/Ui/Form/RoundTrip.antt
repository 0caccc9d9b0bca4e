-- ===== src/Ui/Form/RoundTrip.antt =====
-- The form of a site, sent back as it is shown, is the site again.
use proxy_go.Dict.{lookup}
use proxy_go.Prelude.Int.{ℤ, pos}
use proxy_go.Prelude.{
  if◌then◌else◌, is_empty, is_empty_iff, All, contains, ◌==◌, Text, text_beq, nat_eq, text_eq,
  beq_refl, ℕ, ◌≤◌, ◌≡◌, refl, sym, ap, ◌∙◌, Bool, true, false, ◌||◌, List, [], ◌∷◌, ◌++◌, arith,
}
use proxy_go.Text.{
  codes, is_space, trim_left, trim_right, trim_space, starts_word, split_all, join_texts, IsWord,
  fields-join_texts, split_all-append, split_all-last,
}
use proxy_go.Decimal.{i64_max, format_int}
use proxy_go.Config.Site.{Site}
use mathlib.Core.List.{append_assoc}
use proxy_go.Decimal.RoundTrip.{parse_int-format_int}
use proxy_go.Ui.Form.{
  Values, form_value, not_empty, split_words, trimmed_lines, split_lines, is_on, int_or, read_form,
}

-- a box that is checked is sent as "on", and else not at all
abbrev pub checked : Text → Bool → Values → Values
checked name on f = if on then (name, codes "on") ∷ f else f

-- What a browser sends of the form that internal/ui/templates/site_form.html shows: the aliases with
-- a space between, the upstreams on lines that end in CR LF, and numbers in decimal.
abbrev pub form_of : Site → ℕ → ℕ → Values
form_of s rps burst =
    (codes "domain", s.domain)
    ∷ (codes "aliases", join_texts s.aliases (codes " "))
    ∷ (codes "upstreams", join_texts s.upstreams (13 ∷ 10 ∷ []))
    ∷ (codes "rl_rps", format_int rps)
    ∷ (codes "rl_burst", format_int burst)
    ∷ checked (codes "enabled") s.enabled (
        checked (codes "http_to_https") s.http_to_https (
          checked (codes "websocket") s.web_socket (
            checked (codes "block_common_exploits") s.block_common_exploits (
              checked (codes "tls_auto") s.tls.auto
                (checked (codes "rl_enabled") s.rate_limit.enabled [])))))

-- a line that begins and ends with no space and has no line feed in it
abbrev pub IsLine : Text → Type 0
IsLine l = (starts_word l ≡ true) × (trim_right l ≡ l) × (contains l 10 ≡ false)

trim_right-cr : (s : Text) → trim_right (s ++ 13 ∷ []) ≡ trim_right s
unfolding trim_right is_space
trim_right-cr [] = refl
trim_right-cr (c ∷ s) = ground (arith, trim_right-cr s)

trim_left-line : (l s : Text) → starts_word l ≡ true → trim_left (l ++ s) ≡ l ++ s
unfolding trim_left is_space
trim_left-line [] s h = ground (arith, h)
trim_left-line (c ∷ l) s h = ground (arith, h)

trim_space-cr : (l : Text) → IsLine l → trim_space (l ++ 13 ∷ []) ≡ l
unfolding trim_space
trim_space-cr l (starts, right, _) =
    ap trim_right (trim_left-line l (13 ∷ []) starts) ∙ trim_right-cr l ∙ right

trim_left_self : (l : Text) → starts_word l ≡ true → trim_left l ≡ l
unfolding trim_left is_space
trim_left_self [] h = refl
trim_left_self (c ∷ l) h = ground (arith, h)

trim_space-line : (l : Text) → IsLine l → trim_space l ≡ l
unfolding trim_space
trim_space-line l (starts, right, _) = ap trim_right (trim_left_self l starts) ∙ right

contains-cr : (l : Text) → contains l 10 ≡ false → contains (l ++ 13 ∷ []) 10 ≡ false
contains-cr [] h = refl
contains-cr (c ∷ l) h = ground (arith, contains-cr l)

is_empty-line : (l : Text) → starts_word l ≡ true → is_empty l ≡ false
is_empty-line [] h = ground arith
is_empty-line (c ∷ l) h = refl

trimmed_lines-line :
    (x l : Text) (ls : List Text)
    → trim_space x ≡ l
    → starts_word l ≡ true
    → trimmed_lines (x ∷ ls) ≡ l ∷ trimmed_lines ls
unfolding trimmed_lines
trimmed_lines-line x l ls e h = ground (arith, e, is_empty-line l h)

-- the lines of a text area are read one by one
split_lines-join_texts :
    (ls : List Text) → All IsLine ls → split_lines (join_texts ls (13 ∷ 10 ∷ [])) ≡ ls
unfolding split_lines join_texts
split_lines-join_texts [] h = unfold split_all in unfold trim_space in refl
split_lines-join_texts (l ∷ []) (h, _) =
    ap trimmed_lines (split_all-last l 10 h.2) ∙ trimmed_lines-line l l [] (trim_space-line l h) h.0
split_lines-join_texts (l ∷ k ∷ ls) (h, hs) =
    let rest = join_texts (k ∷ ls) (13 ∷ 10 ∷ []) in
    ap (λ t. trimmed_lines (split_all t 10)) (sym (append_assoc l (13 ∷ []) (10 ∷ rest)))
    ∙ ap trimmed_lines (split_all-append (l ++ 13 ∷ []) rest 10 (contains-cr l h.2))
    ∙ trimmed_lines-line (l ++ 13 ∷ []) l (split_all rest 10) (trim_space-cr l h) h.0
    ∙ ap (λ r. l ∷ r) (split_lines-join_texts (k ∷ ls) hs)

not_empty-words : (ws : List Text) → All IsWord ws → not_empty ws ≡ ws
unfolding not_empty
not_empty-words [] h = refl
not_empty-words (w ∷ ws) ((ne, _), hs) = ground (arith, is_empty_iff w, ne, not_empty-words ws hs)

split_words-join_texts :
    (ws : List Text) → All IsWord ws → split_words (join_texts ws (codes " ")) ≡ ws
unfolding split_words
split_words-join_texts ws h = ap not_empty (fields-join_texts ws h) ∙ not_empty-words ws h

is_on-checked :
    (name n : Text) (on : Bool) (f : Values)
    → is_on name (checked n on f) ≡ (if n == name then (on || is_on name f) else is_on name f)
unfolding is_on form_value lookup
is_on-checked name n true f = ground (arith, beq_refl (codes "on"))
is_on-checked name n false f = ground arith

or_false : (b : Bool) → (b || false) ≡ b
or_false true = refl
or_false false = refl

ruleset box_laws = (is_on-checked, or_false)

-- the boxes of the form, and its texts and numbers
boxes_lem :
    (s : Site) (rps burst : ℕ)
    → (let f = form_of s rps burst in
        (is_on (codes "enabled") f ≡ s.enabled)
        × (is_on (codes "http_to_https") f ≡ s.http_to_https)
        × (is_on (codes "websocket") f ≡ s.web_socket)
        × (is_on (codes "block_common_exploits") f ≡ s.block_common_exploits)
        × (is_on (codes "tls_auto") f ≡ s.tls.auto)
        × (is_on (codes "rl_enabled") f ≡ s.rate_limit.enabled))
unfolding is_on form_value lookup text_beq
boxes_lem s rps burst =
    (simp box_laws, simp box_laws, simp box_laws, simp box_laws, simp box_laws, simp box_laws)

texts_lem :
    (s : Site) (rps burst : ℕ)
    → (let f = form_of s rps burst in
        (form_value (codes "domain") f ≡ s.domain)
        × (form_value (codes "aliases") f ≡ join_texts s.aliases (codes " "))
        × (form_value (codes "upstreams") f ≡ join_texts s.upstreams (13 ∷ 10 ∷ []))
        × (form_value (codes "rl_rps") f ≡ format_int rps)
        × (form_value (codes "rl_burst") f ≡ format_int burst))
unfolding form_value lookup text_beq
texts_lem s rps burst = (refl, refl, refl, refl, refl)

int_or-format_int : (old : ℤ) (n : ℕ) → n ≤ i64_max → int_or old (format_int n) ≡ pos n
unfolding int_or
int_or-format_int old n h = ground (arith, parse_int-format_int n h)

-- What the form of a site shows, sent back unchanged, is the site again, if its domain has no space
-- around it, its aliases are words and its upstreams lines, and its limits are numbers of 63 bits.
pub read_form-form_of :
    (s : Site) (rps burst : ℕ)
    → trim_space s.domain ≡ s.domain
    → All IsWord s.aliases
    → All IsLine s.upstreams
    → s.rate_limit.rps ≡ pos rps
    → s.rate_limit.burst ≡ pos burst
    → rps ≤ i64_max
    → burst ≤ i64_max
    → read_form (form_of s rps burst) s ≡ s
unfolding read_form
read_form-form_of s rps burst domain aliases upstreams r b rmax bmax =
    let f = form_of s rps burst in
    let (on, https, socket, block, auto, limit) = boxes_lem s rps burst in
    let (d, a, u, n, m) = texts_lem s rps burst in
    let d' : trim_space (form_value (codes "domain") f) ≡ s.domain = ap trim_space d ∙ domain in
    let a' : split_words (form_value (codes "aliases") f) ≡ s.aliases =
      ap split_words a ∙ split_words-join_texts s.aliases aliases in
    let u' : split_lines (form_value (codes "upstreams") f) ≡ s.upstreams =
      ap split_lines u ∙ split_lines-join_texts s.upstreams upstreams in
    let n' : int_or s.rate_limit.rps (form_value (codes "rl_rps") f) ≡ s.rate_limit.rps =
      ap (int_or s.rate_limit.rps) n ∙ int_or-format_int s.rate_limit.rps rps rmax ∙ sym r in
    let m' : int_or s.rate_limit.burst (form_value (codes "rl_burst") f) ≡ s.rate_limit.burst =
      ap (int_or s.rate_limit.burst) m ∙ int_or-format_int s.rate_limit.burst burst bmax ∙ sym b in
    rw (d', a', u', n', m', on, https, socket, block, auto, limit) refl
