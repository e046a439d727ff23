-- ===== src/Erasure/Announced.antt =====
-- The event that names the redactions settles what is pending for them.
use xyzzy.Prelude.{
  All, List, Option, String, [], ap, arith, if_neg, if_pos, ite, lookup, lookup-remove_ne,
  lookup-remove_self, none, ok, refl, remove, some, str, subst, subst₂, sym, ◌∙◌, ◌∷◌, ◌≡◌, ◌≢◌,
}
use xyzzy.Json.{Json, get}
use xyzzy.Audit.{RedactionAnnouncement, announced_in, announcement_of, announcements, nonempty_text}
use xyzzy.Audit.Verify.{Pending, settle_announcements}
use xyzzy.Erasure.{announcement_body, announcement_item, announcement_items}

abbrev pub find_announcement : String → List RedactionAnnouncement → Option RedactionAnnouncement
find_announcement id [] = none
find_announcement id (a ∷ rest) = ite (str id a.announced_id) (some a) (find_announcement id rest)

-- No redaction is named twice.
abbrev pub NamedOnce : List RedactionAnnouncement → Type 0
NamedOnce [] = Unit {0}
NamedOnce (a ∷ rest) = (find_announcement a.announced_id rest ≡ none) × NamedOnce rest

-- What is pending is what is to be announced.
abbrev pub Matches : Option Pending → Option RedactionAnnouncement → Type 0
Matches none none = Unit {0}
Matches (some p) (some a) =
    (a.announced_header_hash ≡ p.expected_header_hash)
    × (a.announced_original_hash ≡ p.expected_original_hash)
Matches none (some a) = ⊥
Matches (some p) none = ⊥

pub nothing_pending :
    (p : List (String × Pending)) → ((j : String) → lookup str j p ≡ none) → p ≡ []
unfolding lookup
nothing_pending [] h = refl
nothing_pending ((k, v) ∷ p) h = absurd (ground (arith, h k))

pub Matches-none : (o : Option Pending) → Matches o none → o ≡ none
Matches-none none m = refl
Matches-none (some p) m = absurd m

Matches-some :
    (o : Option Pending) (a : RedactionAnnouncement)
    → Matches o (some a)
    → (p : Pending) × (o ≡ some p)
      × (a.announced_header_hash ≡ p.expected_header_hash)
      × (a.announced_original_hash ≡ p.expected_original_hash)
Matches-some none a m = absurd m
Matches-some (some p) a m = (p, refl, m.0, m.1)

pub settle_all :
    (as' : List RedactionAnnouncement) (p : List (String × Pending))
    → NamedOnce as'
    → ((j : String) → Matches (lookup str j p) (find_announcement j as'))
    → settle_announcements as' p ≡ ok []
unfolding settle_announcements
settle_all [] p o m = ap ok (nothing_pending p (λ j. Matches-none (lookup str j p) (m j)))
settle_all (a ∷ rest) p o m =
    let here : Matches (lookup str a.announced_id p) (some a) =
      subst (Matches (lookup str a.announced_id p))
        (if_pos (str a.announced_id a.announced_id) refl (some a)
          (find_announcement a.announced_id rest))
        (m a.announced_id) in
    let (q, found, header, original) = Matches-some (lookup str a.announced_id p) a here in
    let later =
      settle_all rest (remove str a.announced_id p) o.1
        (λ j. by_id j (str j a.announced_id) refl) in
    ground arith
  where
    by_id :
        (j : String) (d : Dec (j ≡ a.announced_id))
        → str j a.announced_id ≡ d
        → Matches (lookup str j (remove str a.announced_id p)) (find_announcement j rest)
    by_id j (yes e) eq =
        let gone : lookup str j (remove str a.announced_id p) ≡ none =
          ap (λ i. lookup str i (remove str a.announced_id p)) e
          ∙ lookup-remove_self str a.announced_id p in
        let unnamed : find_announcement j rest ≡ none =
          ap (λ i. find_announcement i rest) e ∙ o.0 in
        subst₂ Matches (sym gone) (sym unnamed) tt
    by_id j (no ne) eq =
        subst₂ Matches (sym (lookup-remove_ne str a.announced_id j p ne))
          (if_neg (str j a.announced_id) ne (some a) (find_announcement j rest)) (m j)

pub nonempty : (t : String) → t ≢ "" → nonempty_text (Json.text t) ≡ some t
unfolding nonempty_text
nonempty t ne = if_neg (str t "") ne none (some t)

item-read :
    (a : RedactionAnnouncement)
    → a.announced_id ≢ ""
    → announcement_of (announcement_item a) ≡ some a
unfolding announcement_of get str
item-read a ne = let e = nonempty a.announced_id ne in ground arith

announcements-items :
    (as' : List RedactionAnnouncement)
    → All (λ (a : RedactionAnnouncement). a.announced_id ≢ "") as'
    → announcements (announcement_items as') ≡ as'
unfolding announcements
announcements-items [] h = refl
announcements-items (a ∷ rest) h = ground (arith, item-read a h.0, announcements-items rest h.1)

pub announced_in-body :
    (as' : List RedactionAnnouncement)
    → All (λ (a : RedactionAnnouncement). a.announced_id ≢ "") as'
    → announced_in (announcement_body as') ≡ as'
unfolding announced_in get
announced_in-body as' h = announcements-items as' h
