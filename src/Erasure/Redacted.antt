-- ===== src/Erasure/Redacted.antt =====
-- The verifier's walk over a log in which one more event is redacted: what is pending.
use xyzzy.Prelude.{
  Bool, List, Option, String, [], arith, false, insert, ite, lookup, lookup-insert, lookup-remove,
  none, ok, refl, remove, some, str, subst, sym, true, ◌++◌, ◌∙◌, ◌∷◌, ◌≡◌, ◌≢◌,
}
use xyzzy.Audit.{RedactionAnnouncement, RedactionRow}
use xyzzy.Audit.Verify.{Pending, find_redaction, settle_announcements}

-- The same redactions are pending, and one more.
abbrev pub Adds : String → Pending → List (String × Pending) → List (String × Pending) → Type 0
Adds id entry p p' = (j : String) → lookup str j p' ≡ ite (str j id) (some entry) (lookup str j p)

pub Adds-insert :
    (id : String) (entry : Pending) (i : String) (x : Pending) (p p' : List (String × Pending))
    → i ≢ id
    → Adds id entry p p'
    → Adds id entry (insert str i x p) (insert str i x p')
Adds-insert id entry i x p p' ne a j =
    let new = lookup-insert str i j x p' in
    let old = lookup-insert str i j x p in
    let before = a j in
    elim (str j i) [
      | yes e ↦ let other : j ≢ id = λ e'. ne (sym e ∙ e') in ground arith
      | no _ ↦ ground arith
    ]

Adds-remove :
    (id : String) (entry : Pending) (i : String) (p p' : List (String × Pending))
    → i ≢ id
    → Adds id entry p p'
    → Adds id entry (remove str i p) (remove str i p')
Adds-remove id entry i p p' ne a j =
    let new = lookup-remove str i j p' in
    let old = lookup-remove str i j p in
    let before = a j in
    elim (str j i) [
      | yes e ↦ let other : j ≢ id = λ e'. ne (sym e ∙ e') in ground arith
      | no _ ↦ ground arith
    ]

-- Whether one of the announcements names a redaction.
unfoldable pub names : String → List RedactionAnnouncement → Bool
names id [] = false
names id (a ∷ rest) = ite (str a.announced_id id) true (names id rest)

pub settle-Adds :
    (id : String) (entry : Pending) (as' : List RedactionAnnouncement)
    (p p' q : List (String × Pending))
    → names id as' ≡ false
    → Adds id entry p p'
    → settle_announcements as' p ≡ ok q
    → (q' : List (String × Pending)) × (settle_announcements as' p' ≡ ok q') × Adds id entry q q'
unfolding settle_announcements names
settle-Adds id entry [] p p' q n a h =
    let same : p ≡ q = ground arith in (p', refl, subst (λ x. Adds id entry x p') same a)
settle-Adds id entry (x ∷ rest) p p' q n a h =
    by_name (str x.announced_id id) (lookup str x.announced_id p) refl
      (λ k p₁ p₁'. settle-Adds id entry rest p₁ p₁' q k)
  where
    by_name :
        Dec (x.announced_id ≡ id)
        → (o : Option Pending) → lookup str x.announced_id p ≡ o
        → (names id rest ≡ false
            → (p₁ p₁' : List (String × Pending)) → Adds id entry p₁ p₁'
            → settle_announcements rest p₁ ≡ ok q
            → (q' : List (String × Pending)) × (settle_announcements rest p₁' ≡ ok q')
              × Adds id entry q q')
        → (q' : List (String × Pending)) × (settle_announcements (x ∷ rest) p' ≡ ok q')
          × Adds id entry q q'
    by_name (yes e) o eq later = ground arith
    by_name (no ne) none eq later =
        let same : lookup str x.announced_id p' ≡ none = ground (arith, a x.announced_id) in
        let (q', s, t) = later (ground arith) p p' a (ground arith) in (q', ground arith, t)
    by_name (no ne) (some entry') eq later =
        let same : lookup str x.announced_id p' ≡ some entry' = ground (arith, a x.announced_id) in
        let (q', s, t) =
          later (ground arith) (remove str x.announced_id p) (remove str x.announced_id p')
            (Adds-remove id entry x.announced_id p p' ne a) (ground arith) in
        (q', ground arith, t)

-- Whether a redaction with an id is on record.
unfoldable pub has_redaction : String → List RedactionRow → Bool
has_redaction id [] = false
has_redaction id (r ∷ rs) = ite (str r.redaction_id id) true (has_redaction id rs)

pub find-append :
    (reds : List RedactionRow) (new r : RedactionRow) (i e : String)
    → find_redaction reds i e ≡ some r
    → find_redaction (reds ++ new ∷ []) i e ≡ some r
unfolding find_redaction
find-append [] new r i e h = cc
find-append (x ∷ reds) new r i e h = ground (arith, find-append reds new r i e)

pub find-new :
    (reds : List RedactionRow) (new : RedactionRow)
    → has_redaction new.redaction_id reds ≡ false
    → find_redaction (reds ++ new ∷ []) new.redaction_id new.redacted_event_id ≡ some new
unfolding find_redaction has_redaction
find-new [] new h = ground arith
find-new (x ∷ reds) new h = ground (arith, find-new reds new)

pub find-has :
    (reds : List RedactionRow) (r : RedactionRow) (i e : String)
    → find_redaction reds i e ≡ some r
    → has_redaction i reds ≡ true
unfolding find_redaction has_redaction
find-has [] r i e h = cc
find-has (x ∷ reds) r i e h = ground (arith, find-has reds r i e)
