-- ===== src/AutoInc/Invariant.antt =====
-- No id is handed out twice, whatever the interleaving of the threads.
use duckdb_engine.Prelude.{
  ℕ, ◌+◌, ◌≤◌, true, List, [], ◌∷◌, All, ◌≡◌, ◌⊎◌, inl, inr, refl, sym, subst, arith,
}
use duckdb_engine.AutoInc.{
  AutoincRange, Refill, free, held, reserved, Claim, Share, Step, enter, claim, reload, exhausted,
  lock, refilled, reserve, failed, publish, others, Reach, here, next, Local, outside, has_room,
  claim_range, want_ids, at_thread, publish_range, last_id, opened,
}
use duckdb_engine.AutoInc.Words.{
  IsRange, has_room-le, claim_range-eq, publish_range-eq, want_ids-ge,
}

-- Two claims have no id in common.
abbrev pub Apart : Claim → Claim → Type 0
Apart c d = (c.first + c.count ≤ d.first) ⊎ (d.first + d.count ≤ c.first)

abbrev pub AllApart : List Claim → Type 0
AllApart [] = Unit
AllApart (c ∷ cs) = All (Apart c) cs × AllApart cs

-- The claim ends at or below the number.
abbrev pub EndsBy : ℕ → Claim → Type 0
EndsBy n c = c.first + c.count ≤ n

-- No id of the claim is in the cached range.
abbrev pub OffRange : AutoincRange → Claim → Type 0
OffRange r c = (c.first + c.count ≤ r.next) ⊎ (r.end ≤ c.first)

-- A reserved block lies above the cached range and above every claim, and below the sequence.
abbrev pub Pending : Refill → Share → Type 0
Pending free s = Unit
Pending (held t) s = Unit
Pending (reserved t need first want) s =
    (s.range.end ≤ first)
    × (need ≤ want)
    × (first + want ≤ s.sequence)
    × All (EndsBy first) s.claims

pub record Inv (s : Share) : Type 0 where
  pub range : IsRange s.range
  pub issued : s.range.end ≤ s.sequence
  pub limit : s.sequence ≤ last_id + 1
  pub pending : Pending s.refill s
  pub below : All (EndsBy s.sequence) s.claims
  pub off : All (OffRange s.range) s.claims
  pub apart : AllApart s.claims

All-EndsBy-mono : (m n : ℕ) (cs : List Claim) → m ≤ n → All (EndsBy m) cs → All (EndsBy n) cs
All-EndsBy-mono m n [] h a = tt
All-EndsBy-mono m n (c ∷ cs) h a = (omega arith, All-EndsBy-mono m n cs h a.1)

-- A claim from the front of the range is apart from every claim off the range.
claim-Apart :
    (r : AutoincRange) (need : ℕ) (cs : List Claim)
    → r.next + need ≤ r.end
    → All (OffRange r) cs
    → All (Apart (record { first = r.next; count = need })) cs
claim-Apart r need [] h a = tt
claim-Apart r need (c ∷ cs) h a = (omega arith, claim-Apart r need cs h a.1)

shrink-OffRange :
    (r q : AutoincRange) (cs : List Claim)
    → r.next ≤ q.next
    → q.end ≡ r.end
    → All (OffRange r) cs
    → All (OffRange q) cs
shrink-OffRange r q [] h e a = tt
shrink-OffRange r q (c ∷ cs) h e a = (ground arith, shrink-OffRange r q cs h e a.1)

publish-Apart :
    (first need : ℕ) (cs : List Claim)
    → All (EndsBy first) cs
    → All (Apart (record { first = first; count = need })) cs
publish-Apart first need [] a = tt
publish-Apart first need (c ∷ cs) a = (inr a.0, publish-Apart first need cs a.1)

publish-OffRange :
    (r : AutoincRange) (first : ℕ) (cs : List Claim)
    → first ≤ r.next
    → All (EndsBy first) cs
    → All (OffRange r) cs
publish-OffRange r first [] h a = tt
publish-OffRange r first (c ∷ cs) h a = (inl (omega arith), publish-OffRange r first cs h a.1)

-- Every claim from below the range is off it; so is one that ends where the range begins.
claim-Pending :
    (f : Refill) (s s' : Share) (c : Claim)
    → s'.range.end ≡ s.range.end
    → s'.sequence ≡ s.sequence
    → s'.claims ≡ c ∷ s.claims
    → c.first + c.count ≤ s.range.end
    → Pending f s
    → Pending f s'
claim-Pending free s s' c e q k h p = tt
claim-Pending (held t) s s' c e q k h p = tt
claim-Pending (reserved t need first want) s s' c e q k h p =
    (omega arith, p.1, omega arith, subst (All (EndsBy first)) (sym k) (omega arith, p.3))

claim-Inv :
    (s : Share) (need : ℕ) (threads : ℕ → Local)
    → Inv s
    → has_room s.range need ≡ true
    → Inv (record s {
      range = claim_range s.range need;
      threads = threads;
      claims = record { first = s.range.next; count = need } ∷ s.claims;
    })
claim-Inv s need threads v room =
    let fits = has_room-le s.range need v.range room in
    rw (claim_range-eq s.range need v.range fits) record {
      range = omega arith;
      issued = v.issued;
      limit = v.limit;
      pending = claim-Pending s.refill s _ _ refl refl refl fits v.pending;
      below = (omega arith, v.below);
      off = (inl (omega arith), shrink-OffRange s.range _ s.claims (omega arith) refl v.off);
      apart = (claim-Apart s.range need s.claims fits v.off, v.apart);
    }

publish-Inv :
    (s : Share) (t need first want : ℕ) (threads : ℕ → Local)
    → Inv s
    → Pending (reserved t need first want) s
    → Inv (record s {
      range = publish_range first need want;
      refill = free;
      threads = threads;
      claims = record { first = first; count = need } ∷ s.claims;
    })
publish-Inv s t need first want threads v (above, small, within, ends) =
    rw (publish_range-eq first need want small (omega (arith, v.limit))) record {
      range = omega (arith, v.limit);
      issued = within;
      limit = v.limit;
      pending = tt;
      below = (omega arith, v.below);
      off = (inl (omega arith), publish-OffRange _ first s.claims (omega arith) ends);
      apart = (publish-Apart first need s.claims ends, v.apart);
    }

Pending-reserve :
    (s : Share) (t need first want : ℕ) (fresh : s.sequence ≤ first)
    → need ≤ want
    → Inv s
    → Pending
        (reserved t need first want)
        (record s { refill = reserved t need first want; sequence = first + want })
Pending-reserve s t need first want fresh small v = (
  omega (arith, v.issued),
  small,
  omega arith,
  All-EndsBy-mono s.sequence first s.claims fresh v.below,
)

grow-Pending :
    (f : Refill) (s : Share) (n : ℕ)
    → s.sequence ≤ n
    → Pending f s
    → Pending f (record s { sequence = n })
grow-Pending free s n h p = tt
grow-Pending (held t) s n h p = tt
grow-Pending (reserved t need first want) s n h p = (p.0, p.1, omega arith, p.3)

-- The threads do not matter to the invariant.
idle-Inv :
    (s : Share) (f : Refill) (threads : ℕ → Local)
    → Pending f (record s { refill = f; threads = threads })
    → Inv s
    → Inv (record s { refill = f; threads = threads })
idle-Inv s f threads p v = record {
  range = v.range;
  issued = v.issued;
  limit = v.limit;
  pending = p;
  below = v.below;
  off = v.off;
  apart = v.apart;
}

moved-Pending :
    (f : Refill) (s : Share) (threads : ℕ → Local)
    → Pending f s
    → Pending f (record s { threads = threads })
moved-Pending free s threads p = tt
moved-Pending (held t) s threads p = tt
moved-Pending (reserved t need first want) s threads p = p

moved-Inv : (s : Share) (threads : ℕ → Local) → Inv s → Inv (record s { threads = threads })
moved-Inv s threads v = idle-Inv s s.refill threads (moved-Pending s.refill s threads v.pending) v

grow-Inv :
    (s : Share) (f : Refill) (n : ℕ)
    → s.sequence ≤ n
    → n ≤ last_id + 1
    → Pending f (record s { refill = f; sequence = n })
    → Inv s
    → Inv (record s { refill = f; sequence = n })
grow-Inv s f n h k p v = record {
  range = v.range;
  issued = omega (arith, v.issued);
  limit = k;
  pending = p;
  below = All-EndsBy-mono s.sequence n s.claims h v.below;
  off = v.off;
  apart = v.apart;
}

-- Each step of any thread, and of a writer on DuckDB's side, keeps the invariant.
pub Step-Inv : (k : ℕ) {s u : Share} → Step k s u → Inv s → Inv u
Step-Inv k {s = s} (enter t nb increment need out e) v = moved-Inv s _ v
Step-Inv k {s = s} (claim t need cur l room e) v =
    subst
      (λ r.
        has_room r need ≡ true
        → Inv (record s {
          range = claim_range r need;
          threads = at_thread s.threads t outside;
          claims = record { first = r.next; count = need } ∷ s.claims;
        }))
      e (claim-Inv s need _ v) room
Step-Inv k {s = s} (reload t need cur l room) v = moved-Inv s _ v
Step-Inv k {s = s} (exhausted t need cur l room) v = moved-Inv s _ v
Step-Inv k {s = s} (lock t need l f) v = idle-Inv s (held t) s.threads tt v
Step-Inv k {s = s} (refilled t need l h room) v = idle-Inv s free _ tt v
Step-Inv k {s = s} (reserve t need first answers l h room e ne fresh fits) v =
    grow-Inv s (reserved t need first (want_ids need k)) (first + want_ids need k) (omega arith)
      fits (Pending-reserve s t need first (want_ids need k) fresh (want_ids-ge need k) v) v
Step-Inv k {s = s} (failed t need answers l h e) v = idle-Inv s free _ tt v
Step-Inv k {s = s} (publish t need first want e) v =
    publish-Inv s t need first want _ v (subst (λ f. Pending f s) e v.pending)
Step-Inv k {s = s} (others n h fits) v =
    grow-Inv s s.refill n h fits (grow-Pending s.refill s n h v.pending) v

opened-Inv : (sequence : ℕ) → sequence ≤ last_id + 1 → Inv (opened sequence)
opened-Inv sequence h = record {
  range = omega arith;
  issued = omega arith;
  limit = h;
  pending = tt;
  below = tt;
  off = tt;
  apart = tt;
}

pub Reach-Inv : (k : ℕ) {s u : Share} → Inv s → Reach k s u → Inv u
Reach-Inv k v here = v
Reach-Inv k v (next r st) = Step-Inv k st (Reach-Inv k v r)

-- From the opening of a share on, whatever the threads do and in whatever order, and whatever ids
-- a writer on DuckDB's side takes, the blocks of ids that get_auto_increment hands out are pairwise
-- apart, they are apart from the ids that are still cached, and all of them were issued by the
-- table's sequence.
pub claims-AllApart :
    (cache_size sequence : ℕ) {s : Share}
    → sequence ≤ last_id + 1
    → Reach cache_size (opened sequence) s
    → AllApart s.claims × All (OffRange s.range) s.claims × All (EndsBy s.sequence) s.claims
claims-AllApart k sequence h r =
    let v = Reach-Inv k (opened-Inv sequence h) r in (v.apart, v.off, v.below)
