-- ===== src/Config/Resolve/Claims.antt =====
-- internal/config/config.go, `Resolve`: what the maps `claimed` and `origins` say of the mounts placed so far.
use vibepod.Base.{false, none, [], ◌∷◌, ◌++◌}
use vibepod.Base.{Text, text_eq, nat_eq, All, All-map, All-append, Pairwise, Pairwise-snoc}
use vibepod.Base.{◌≡◌, refl, sym, ap, ◌∙◌, ◌≢◌, arith}
use mathlib.Core.Path.{subst}
use vibepod.Base.Dict.{Dict, lookup, insert, lookup-insert, lookup-insert_self}
use vibepod.Strings.{cut-append}
use vibepod.Filepath.{clean}
use vibepod.Proto.{MountSpec}
use vibepod.Config.Guard.{guard_path, is_under}
use vibepod.Config.Resolve.Defs.{ok, Placing, claim, overlap}

-- Two mounts that may stand in one pod: at different paths, and, of one machine, with neither
-- directory inside the other.
pub record Disjoint (a b : MountSpec) : Type 0 where
  pub places : clean a.at ≢ clean b.at
  pub caches :
      a.host ≢ []
      → a.host ≡ b.host
      → (is_under b.path a.path ≡ false) × (is_under a.path b.path ≡ false)

abbrev pub key_of : MountSpec → Text
key_of m = m.host ++ b':' ∷ m.path

-- The maps know every mount placed.
pub record Recorded (claimed origins : Dict Text Text) (m : MountSpec) : Type 0 where
  pub guarded : guard_path (clean m.at) ≡ none
  pub claimed_at : lookup (clean m.at) claimed ≢ none
  pub origin : m.host ≢ [] → lookup (key_of m) origins ≢ none
  pub one_host : All (λ c. c ≢ b':') m.host

pub record IsSound (p : Placing) : Type 0 where
  pub recorded : All (Recorded p.claimed p.origins) p.mounts
  pub apart : Pairwise Disjoint p.mounts

-- An origin that does not overlap is one that the loop looked at.
overlap-none :
    (o : Dict Text Text) (host path h pp : Text)
    → All (λ c. c ≢ b':') h
    → overlap o host path ≡ none
    → lookup (h ++ b':' ∷ pp) o ≢ none
    → h ≡ host
    → (is_under path pp ≡ false) × (is_under pp path ≡ false)
unfolding overlap lookup
overlap-none [] host path h pp lacks e l s = absurd (l refl)
overlap-none ((prev, by) ∷ o) host path h pp lacks e l s =
    ground (arith, cut-append h pp b':' lacks, overlap-none o host path h pp lacks)

pub claim_ok :
    (p p' : Placing) (at by : Text)
    → claim p at by ≡ ok p'
    → (guard_path (clean at) ≡ none)
      × (lookup (clean at) p.claimed ≡ none)
      × (p' ≡ record p { claimed = insert (clean at) by p.claimed })
unfolding claim
claim_ok p p' at by h = ground arith

-- What is known of a mount that is about to be appended.
pub record Fits (p : Placing) (m : MountSpec) : Type 0 where
  pub guarded : guard_path (clean m.at) ≡ none
  pub unclaimed : lookup (clean m.at) p.claimed ≡ none
  pub one_host : All (λ c. c ≢ b':') m.host
  pub alone : m.host ≢ [] → overlap p.origins m.host m.path ≡ none

Fits-Disjoint :
    (p : Placing) (m q : MountSpec) → Fits p m → Recorded p.claimed p.origins q → Disjoint q m
Fits-Disjoint p m q f r = record {
  places = λ e. r.claimed_at (ap (λ t. lookup t p.claimed) e ∙ f.unclaimed);
  caches = λ ne same.
      overlap-none p.origins m.host m.path q.host q.path r.one_host (f.alone (λ e. ne (same ∙ e)))
        (r.origin ne) same;
}

pub append-IsSound :
    (p : Placing) (m : MountSpec) (by : Text) (origins : Dict Text Text)
    → Fits p m
    → ((k : Text) → lookup k p.origins ≢ none → lookup k origins ≢ none)
    → (m.host ≢ [] → lookup (key_of m) origins ≢ none)
    → IsSound p
    → IsSound (record {
      claimed = insert (clean m.at) by p.claimed;
      origins = origins;
      mounts = p.mounts ++ m ∷ [];
    })
append-IsSound p m by origins f grow own s = record {
  recorded =
      All-append (Recorded (insert (clean m.at) by p.claimed) origins) p.mounts (m ∷ [])
        (All-map older p.mounts s.recorded) (newest, tt);
  apart =
      Pairwise-snoc Disjoint p.mounts m s.apart
        (All-map (λ q r. Fits-Disjoint p m q f r) p.mounts s.recorded);
}
  where
    older :
        (q : MountSpec)
        → Recorded p.claimed p.origins q
        → Recorded (insert (clean m.at) by p.claimed) origins q
    older q r = record {
      guarded = r.guarded;
      claimed_at =
          λ e. ground (arith, r.claimed_at, lookup-insert (clean q.at) (clean m.at) by p.claimed);
      origin = λ ne. grow (key_of q) (r.origin ne);
      one_host = r.one_host;
    }

    newest : Recorded (insert (clean m.at) by p.claimed) origins m
    newest = record {
      guarded = f.guarded;
      claimed_at = λ e. ground (arith, lookup-insert_self (clean m.at) by p.claimed);
      origin = own;
      one_host = f.one_host;
    }

pub ok-injective : (p p' : Placing) → ok p ≡ ok p' → p ≡ p'
ok-injective p p' h = ground arith

-- A claim that succeeds makes room for a mount that needs no more than its path.
pub claim_then :
    (p q : Placing) (m : MountSpec) (by : Text)
    → claim p m.at by ≡ ok q
    → m.host ≡ []
    → IsSound p
    → IsSound (record q { mounts = q.mounts ++ m ∷ [] })
claim_then p q m by c local s =
    let (g, u, e) = claim_ok p q m.at by c in
    subst (λ (r : Placing). IsSound (record r { mounts = r.mounts ++ m ∷ [] })) (sym e)
      (append-IsSound p m by p.origins
        (record {
          guarded = g;
          unclaimed = u;
          one_host = subst (All (λ c. c ≢ b':')) (sym local) tt;
          alone = λ ne. absurd (ne local);
        })
        (λ k known. known) (λ ne. absurd (ne local)) s)
