-- ===== src/Erasure/Loop.antt =====
-- The loop over the user's rows of a room (`erase_user`), and the log that it leaves.
use xyzzy.Prelude.{
  All, Bool, List, Option, String, [], ap, arith, false, if_neg, inl, inr, ite, lookup, map, none,
  ok, refl, some, str, subst, sym, true, ◌∙◌, ◌∷◌, ◌≡◌, ◌≢◌,
}
use xyzzy.Json.{Json}
use xyzzy.Audit.{EventRow, Field, RedactionAnnouncement}
use xyzzy.Audit.Rooms.{Log, room_rows}
use xyzzy.Events.{event_id_taken}
use xyzzy.Erasure.{
  announcement_for, erase_rows, is_erased, redact_payload_in_transaction, redact_rows, redaction_of,
}
use xyzzy.Erasure.Walked.{find_event}
use xyzzy.Erasure.Announced.{Matches, NamedOnce, find_announcement}
use xyzzy.Erasure.Stored.{find_event-other, first_of}
use xyzzy.Erasure.Step.{Apart, IsErasable, IsOwing, erase-IsOwing, marker, new_redaction}
use xyzzy.Erasure.Ready.{
  Apart-Elsewhere, Elsewhere, Ready, Ready-later, Unused, erased-plain, find_event-redacted,
  taken-redact,
}

first_of-swap :
    (id j : String) (a : RedactionAnnouncement) (o : Option RedactionAnnouncement)
    (announced : List RedactionAnnouncement)
    → find_announcement id announced ≡ none
    → first_of (find_announcement j announced) (ite (str j id) (some a) o)
      ≡ first_of (ite (str j id) (some a) (find_announcement j announced)) o
first_of-swap id j a o announced h = elim (str j id) [
  | yes e ↦
      let none_here : find_announcement j announced ≡ none =
        ap (λ i. find_announcement i announced) e ∙ h in
      ground arith
  | no ne ↦ ground arith
]

-- The rows without their payloads.
abbrev pub headers : List EventRow → List EventRow
headers rows = map (λ (r : EventRow). record r { payload = "" }) rows

headers-redact :
    (id payload : String) (rows : List EventRow)
    → headers (redact_rows id payload rows) ≡ headers rows
unfolding redact_rows
headers-redact id payload [] = refl
headers-redact id payload (row ∷ rows) =
    let later = headers-redact id payload rows in
    elim (str row.event_id id) [ yes e ↦ ground arith | no ne ↦ ground arith ]

module _ (digest : List Field → String) (loads : String → Option Json) (dumps : Json → String)
    (new_id : String → String) where
  -- Each personal row of the list holds its marker.
  abbrev pub Gone : List EventRow → List EventRow → Type 0
  Gone stored [] = Unit {0}
  Gone stored (row ∷ rows) =
      (is_erased digest loads dumps new_id row ≡ some true
        → find_event row.event_id stored
          ≡ some (record row { payload = marker digest loads dumps new_id row }))
      × Gone stored rows

  -- What is to be announced for the user's rows.
  abbrev pub announced_if :
      EventRow → Option Bool → List RedactionAnnouncement → List RedactionAnnouncement
  announced_if row (some true) rest =
      announcement_for digest loads dumps new_id (new_redaction digest loads dumps new_id row)
      ∷ rest
  announced_if row (some false) rest = rest
  announced_if row none rest = rest

  abbrev pub announcements_of : List EventRow → List RedactionAnnouncement
  announcements_of [] = []
  announcements_of (row ∷ rows) =
      announced_if row (is_erased digest loads dumps new_id row) (announcements_of rows)

  pub record IsErasedBy (log : Log) (room : String) (owed : String → Option RedactionAnnouncement)
      (rows : List EventRow) (log' : Log) (announced : List RedactionAnnouncement) : Type 0 where
    pub owing :
        IsOwing digest loads dumps new_id log' room
          (λ j. first_of (find_announcement j announced) (owed j))
    pub named : announced ≡ announcements_of rows
    pub once : NamedOnce announced
    pub ids : All (λ (a : RedactionAnnouncement). a.announced_id ≢ "") announced
    pub within :
        (j : String)
        → Unused digest loads dumps new_id j rows
        → find_announcement j announced ≡ none
    pub same_counters : log'.counters ≡ log.counters
    pub same_rooms : log'.rooms ≡ log.rooms
    pub same_headers : headers (room_rows log' room) ≡ headers (room_rows log room)
    pub same_taken : (e : String) → event_id_taken e log'.events ≡ event_id_taken e log.events
    pub others :
        (e : String)
        → Elsewhere digest loads dumps new_id e rows
        → find_event e (room_rows log' room) ≡ find_event e (room_rows log room)
    pub gone : Gone (room_rows log' room) rows

  skip-IsErasedBy :
      (log : Log) (room : String) (owed : String → Option RedactionAnnouncement) (row : EventRow)
      (rows : List EventRow) (log' : Log) (announced : List RedactionAnnouncement)
      → is_erased digest loads dumps new_id row ≡ some false
      → IsErasedBy log room owed rows log' announced
      → IsErasedBy log room owed (row ∷ rows) log' announced
  skip-IsErasedBy log room owed row rows log' announced skipped x = record {
    owing = x.owing;
    named = x.named ∙ ap (λ b. announced_if row b (announcements_of rows)) (sym skipped);
    once = x.once;
    ids = x.ids;
    within = λ j u. x.within j u.1;
    same_counters = x.same_counters;
    same_rooms = x.same_rooms;
    same_headers = x.same_headers;
    same_taken = x.same_taken;
    others = λ e u. x.others e u.1;
    gone = (λ h. absurd (ground (arith, h, skipped)), x.gone);
  }

  same-IsOwing :
      (log : Log) (room : String) (f g : String → Option RedactionAnnouncement)
      → ((j : String) → f j ≡ g j)
      → IsOwing digest loads dumps new_id log room f
      → IsOwing digest loads dumps new_id log room g
  same-IsOwing log room f g same o = record {
    end = o.end;
    walked = o.walked;
    owes = λ j. subst (Matches (lookup str j o.end.pending)) (same j) (o.owes j);
    separated = o.separated;
    hashed = o.hashed;
    counted = o.counted;
  }

  join-IsErasedBy :
      (log log₁ : Log) (room : String) (owed : String → Option RedactionAnnouncement)
      (row : EventRow) (rows : List EventRow) (log' : Log) (announced : List RedactionAnnouncement)
      → is_erased digest loads dumps new_id row ≡ some true
      → IsErasable digest loads dumps new_id log room row
      → Apart digest loads dumps new_id row rows
      → room_rows log₁ room
        ≡ redact_rows row.event_id (marker digest loads dumps new_id row) (room_rows log room)
      → log₁.events
        ≡ redact_payload_in_transaction row.event_id
            (marker digest loads dumps new_id row)
            log.events
      → log₁.counters ≡ log.counters
      → log₁.rooms ≡ log.rooms
      → IsErasedBy log₁ room
          (λ j.
            ite
              (str j (new_id row.event_id))
              (some (
                announcement_for digest loads dumps new_id
                  (new_redaction digest loads dumps new_id row)))
              (owed j))
          rows
          log'
          announced
      → IsErasedBy log room owed (row ∷ rows) log' (
          announcement_for digest loads dumps new_id (new_redaction digest loads dumps new_id row)
          ∷ announced)
  unfolding redaction_of
  join-IsErasedBy log log₁ room owed row rows log' announced erased e apart rows₁ events₁ counters₁
        rooms₁ x =
      let id = new_id row.event_id in
      let a =
        announcement_for digest loads dumps new_id (new_redaction digest loads dumps new_id row) in
      let (elsewhere, unused) = Apart-Elsewhere digest loads dumps new_id row rows apart in
      let unnamed : find_announcement id announced ≡ none = x.within id unused in
      record {
        owing =
            same-IsOwing log' room
              (λ j. first_of (find_announcement j announced) (ite (str j id) (some a) (owed j)))
              (λ j. first_of (ite (str j id) (some a) (find_announcement j announced)) (owed j))
              (λ j. first_of-swap id j a (owed j) announced unnamed) x.owing;
        named =
            ap (λ rest. a ∷ rest) x.named
            ∙ ap (λ b. announced_if row b (announcements_of rows)) (sym erased);
        once = (unnamed, x.once);
        ids = (e.nonempty_id, x.ids);
        within =
            λ j u. if_neg (str j id) u.0 (some a) (find_announcement j announced) ∙ x.within j u.1;
        same_counters = x.same_counters ∙ counters₁;
        same_rooms = x.same_rooms ∙ rooms₁;
        same_headers =
            x.same_headers
            ∙ (ap headers rows₁
                ∙ headers-redact row.event_id (marker digest loads dumps new_id row)
                    (room_rows log room));
        same_taken = λ i.
            x.same_taken i
            ∙ (ap (event_id_taken i) events₁
                ∙ taken-redact row.event_id (marker digest loads dumps new_id row) i log.events);
        others = λ i u.
            x.others i u.1
            ∙ (ap (find_event i) rows₁
                ∙ find_event-other row.event_id (marker digest loads dumps new_id row) i
                    (room_rows log room) u.0);
        gone = (
          λ _.
              x.others row.event_id elsewhere
              ∙ (ap (find_event row.event_id) rows₁
                  ∙ find_event-redacted (marker digest loads dumps new_id row) row
                      (room_rows log room) e.stored),
          x.gone,
        );
      }

  pub erase_rows-IsErasedBy :
      (log : Log) (room : String) (owed : String → Option RedactionAnnouncement)
      (rows : List EventRow)
      → IsOwing digest loads dumps new_id log room owed
      → Ready digest loads dumps new_id log room rows
      → (log' : Log) × (announced : List RedactionAnnouncement) × (erase_rows digest loads dumps
            new_id log rows
          ≡ ok (log', announced))
        × IsErasedBy log room owed rows log' announced
  unfolding erase_rows
  erase_rows-IsErasedBy log room owed [] o r = (
    log,
    [],
    refl,
    record {
      owing = o;
      named = refl;
      once = tt;
      ids = tt;
      within = λ j u. refl;
      same_counters = refl;
      same_rooms = refl;
      same_headers = refl;
      same_taken = λ e. refl;
      others = λ e u. refl;
      gone = tt;
    },
  )
  erase_rows-IsErasedBy log room owed (row ∷ rows) o r = elim r.0 [
    | inl skipped ↦
        let (log', announced, done, x) = erase_rows-IsErasedBy log room owed rows o r.1 in
        (
          log',
          announced,
          ground arith,
          skip-IsErasedBy log room owed row rows log' announced skipped x,
        )
    | inr (erased, e, apart) ↦
        let (log₁, step, reds, rows₁, events₁, counters₁, rooms₁, o₁) =
          erase-IsOwing digest loads dumps new_id log room owed row o e
            (erased-plain digest loads dumps new_id row erased) in
        let later =
          erase_rows-IsErasedBy log₁ room
            (λ j.
              ite (str j (new_id row.event_id))
                (some (
                  announcement_for digest loads dumps new_id
                    (new_redaction digest loads dumps new_id row)))
                (owed j))
            rows o₁
            (Ready-later digest loads dumps new_id log log₁ room row rows reds rows₁ e.readable
              apart r.1) in
        let (log', announced, done, x) = later in
        (
          log',
          announcement_for digest loads dumps new_id (new_redaction digest loads dumps new_id row)
              ∷ announced,
          ground arith,
          join-IsErasedBy log log₁ room owed row rows log' announced erased e apart rows₁ events₁
              counters₁ rooms₁ x,
        )
  ]
