-- ===== src/AuditLedger/Growth.antt =====
-- The audit table under service calls: it only grows, it stays ordered, and its chain stays intact.
use mathlib.Core.List.{append_assoc}
use native.Mathlib.Nat.{le_refl, le_trans}
use secure_document_manageme.Prelude.{
  ℕ, suc, ◌≤◌, ◌≡◌, refl, sym, ap, ◌∙◌, Bool, true, false, Option, none, some, List, [], ◌∷◌, ◌++◌,
  All, arith, if◌then◌else◌, get_last?, get_last?-concat,
}
use mathlib.Core.List.{reverse, reverse-cons}
use secure_document_manageme.Prelude.Sort.{IsDescending, order_by-IsDescending}
use secure_document_manageme.Ledger.Links.{Chained, head_hash}
use secure_document_manageme.Db.{Db, World, AuditRow}
use secure_document_manageme.Service.{
  HttpError, Result, ok, err, Service, Platform, pure, throw, gets, or_throw, after, ◌>>=◌,
  throw_if, write, rollback, with_transaction, new_uuid,
}
use secure_document_manageme.AuditLedger.{
  AuditEntry, by_id, hash_of_last, audit_chain, previous_hash, new_row, appended, append_event,
}

All-mono : (m n : ℕ) (xs : List AuditRow) → m ≤ n → All (λ r. r.id ≤ m) xs → All (λ r. r.id ≤ n) xs
All-mono m n [] h a = tt
All-mono m n (x ∷ xs) h (p, a) = (le_trans p h, All-mono m n xs h a)

All-before :
    (n : ℕ) (x : AuditRow) (xs : List AuditRow)
    → x.id ≡ suc n
    → All (λ r. r.id ≤ n) xs
    → All (λ r. by_id r x ≡ true) xs
All-before n x [] e a = tt
All-before n x (y ∷ xs) e (p, a) = (ground arith, All-before n x xs e a)

module _ (p : Platform) where
  -- Ids fall from the newest row to the oldest and stay within the sequence; every row points to
  -- the hash of the row before it and carries the hash of its own content.
  pub record IsIntact (w : World) : Type 0 where
    pub within : All (λ r. r.id ≤ w.audit_sequence) w.audit_events
    pub ordered : IsDescending by_id w.audit_events
    pub chained : Chained (audit_chain p) w.audit_events

  last-reverse :
      (rows : List AuditRow)
      → hash_of_last (get_last? (reverse rows)) ≡ head_hash (audit_chain p) rows
  last-reverse [] = refl
  last-reverse (r ∷ rows) = rw (reverse-cons, get_last?-concat)

  -- The hash that the next event will point to is that of the newest row.
  pub previous_hash-eq-head_hash :
      (w : World) → IsIntact w → previous_hash p w ≡ head_hash (audit_chain p) w.audit_events
  unfolding previous_hash
  previous_hash-eq-head_hash w h =
      rw (order_by-IsDescending by_id w.audit_events h.ordered) (last-reverse w.audit_events)

  pub appended-IsIntact : (e : AuditEntry) (w : World) → IsIntact w → IsIntact (appended p e w)
  appended-IsIntact e w h = record {
    within = (le_refl _, All-mono _ _ w.audit_events (omega arith) h.within);
    ordered = (All-before w.audit_sequence (new_row p e w) w.audit_events refl h.within, h.ordered);
    chained = (previous_hash-eq-head_hash w h, refl, h.chained);
  }

  -- From one state to a later one: no audit row is taken away or changed, the sequence does not go
  -- back, and an intact table stays intact.
  pub record Grows (w w' : World) : Type 0 where
    pub sequence : w.audit_sequence ≤ w'.audit_sequence
    pub added : List AuditRow
    pub suffix : w'.audit_events ≡ added ++ w.audit_events
    pub intact : IsIntact w → IsIntact w'

  pub Grows-refl : (w : World) → Grows w w
  Grows-refl w = record { sequence = le_refl _; added = []; suffix = refl; intact = λ h. h }

  pub Grows-trans : (u v w : World) → Grows u v → Grows v w → Grows u w
  Grows-trans u v w g k = record {
    sequence = le_trans g.sequence k.sequence;
    added = k.added ++ g.added;
    suffix =
        k.suffix
        ∙ ap (λ rows. k.added ++ rows) g.suffix
        ∙ sym (append_assoc k.added g.added u.audit_events);
    intact = λ h. k.intact (g.intact h);
  }

  -- A service call whose every run grows the table.
  pub record Appends {A : Type 0} (m : Service A) : Type 0 where
    pub at : (w : World) → Grows w (m w).1

  module _ {A : Type 0} where
    pub Appends-pure : (a : A) → Appends (pure a)
    Appends-pure a = record { at = Grows-refl }

    pub Appends-throw : (e : HttpError) → Appends (throw {A = A} e)
    Appends-throw e = record { at = Grows-refl }

    pub Appends-gets : (f : World → A) → Appends (gets f)
    Appends-gets f = record { at = Grows-refl }

    pub Appends-or_throw : (o : Option A) (e : HttpError) → Appends (or_throw o e)
    Appends-or_throw none e = record { at = Grows-refl }
    Appends-or_throw (some a) e = record { at = Grows-refl }

    pub Appends-if :
        (b : Bool) (m n : Service A) → Appends m → Appends n → Appends (if b then m else n)
    Appends-if true m n km kn = km
    Appends-if false m n km kn = kn

    Grows-rollback : (w : World) (s : Result A × World) → Grows w s.1 → Grows w (rollback w s).1
    Grows-rollback w (ok a, w') g = g
    Grows-rollback w (err e, w') g = record {
      sequence = g.sequence;
      added = [];
      suffix = refl;
      intact = λ h. record {
        within = All-mono _ _ w.audit_events g.sequence h.within;
        ordered = h.ordered;
        chained = h.chained;
      };
    }

    pub Appends-with_transaction : (m : Service A) → Appends m → Appends (with_transaction m)
    unfolding with_transaction
    Appends-with_transaction m k = record { at = λ w. Grows-rollback w (m w) (k.at w) }

  pub Appends-throw_if : (b : Bool) (e : HttpError) → Appends (throw_if b e)
  Appends-throw_if b e = record { at = Grows-refl }

  -- A write to the other tables.
  pub Appends-write :
      (f : Db → Db) → ((d : Db) → (f d).audit_events ≡ d.audit_events) → Appends (write f)
  Appends-write f same = record {
    at = λ w. record {
      sequence = le_refl _;
      added = [];
      suffix = same w.db;
      intact = λ h. record {
        within = rw (same w.db) h.within;
        ordered = rw (same w.db) h.ordered;
        chained = rw (same w.db) h.chained;
      };
    };
  }

  -- A call that leaves the audit table and its sequence alone.
  pub Appends-unaudited :
      {A : Type 0} (m : Service A)
      → ((w : World) → (m w).1.audit_events ≡ w.audit_events)
      → ((w : World) → (m w).1.audit_sequence ≡ w.audit_sequence)
      → Appends m
  Appends-unaudited m same still = record {
    at = λ w. record {
      sequence = omega (arith, still w);
      added = [];
      suffix = same w;
      intact = λ h. record {
        within = rw (same w, still w) h.within;
        ordered = rw (same w) h.ordered;
        chained = rw (same w) h.chained;
      };
    };
  }

  pub Appends-new_uuid : Appends (new_uuid p)
  Appends-new_uuid = record {
    at = λ w. record {
      sequence = le_refl _;
      added = [];
      suffix = refl;
      intact = λ h. record { within = h.within; ordered = h.ordered; chained = h.chained };
    };
  }

  pub Appends-append_event : (e : AuditEntry) → Appends (append_event p e)
  unfolding append_event
  Appends-append_event e = record {
    at = λ w. record {
      sequence = omega arith;
      added = new_row p e w ∷ [];
      suffix = refl;
      intact = appended-IsIntact e w;
    };
  }

  module _ {A B : Type 0} where
    Grows-after :
        (f : A → Service B)
        → ((a : A) → Appends (f a))
        → (w : World) (s : Result A × World) → Grows w s.1
        → Grows w (after f s).1
    Grows-after f kf w (ok a, w') g = Grows-trans w w' (f a w').1 g ((kf a).at w')
    Grows-after f kf w (err e, w') g = g

    pub Appends-bind :
        (m : Service A) (f : A → Service B)
        → Appends m
        → ((a : A) → Appends (f a))
        → Appends (m >>= f)
    Appends-bind m f km kf = record { at = λ w. Grows-after f kf w (m w) (km.at w) }

pub ruleset appends_rules = (
  Appends-pure, Appends-throw, Appends-gets, Appends-or_throw, Appends-if, Appends-with_transaction,
  Appends-throw_if, Appends-new_uuid, Appends-append_event, Appends-bind,
)
