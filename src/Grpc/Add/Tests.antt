-- ===== src/Grpc/Add/Tests.antt =====
-- A directory, a file in two chunks and an empty file, and a file with an empty chunk in the middle.
use js_ipfs.Prelude.{
  ◌<◌, ◌%◌, ◌-◌, ◌∙◌, Option, ap, Bool, if◌then◌else◌, ltb, ◌≡◌, refl, [], ◌∷◌, codes, some, none,
  map, List, true, All, arith,
}
use js_ipfs.Grpc.Add.{Candidate, Message, send_files, add}
use js_ipfs.Grpc.Add.Wire.{ℤ, pos, negsuc, IsWire, IsInRange, FitsInt32, FitsUint32, WhenSet}
use js_ipfs.Grpc.Add.Rounds.{IsSendable, received}
use js_ipfs.Grpc.Add.RoundTrip.{add-send_files}

abbrev two_chunks : Candidate ℤ
two_chunks = record {
  path = codes "a.txt";
  mode = some 420;
  mtime = some (record { secs = pos 7; nsecs = none });
  content = some ((1 ∷ 2 ∷ []) ∷ (3 ∷ []) ∷ []);
}

abbrev candidates : List (Candidate ℤ)
candidates =
    record { path = codes "docs"; mode = some 493; mtime = none; content = none }
    ∷ two_chunks
    ∷ record { path = codes "empty"; mode = some 384; mtime = none; content = some [] }
    ∷ []

candidates-IsSendable : All IsSendable candidates
candidates-IsSendable =
    ((λ e. omega (arith, e)), (((λ e. omega (arith, e)), ((λ e. omega (arith, e)), tt)), (tt, tt)))

candidates-IsInRange : All IsInRange candidates
candidates-IsInRange = (
  record {
    path = refl;
    mode = omega arith;
    secs = tt;
    nsecs = tt;
    short = omega arith;
    chunks = tt;
  },
  (
    record {
      path = refl;
      mode = omega arith;
      secs = omega arith;
      nsecs = tt;
      short = omega arith;
      chunks = (omega arith, (omega arith, tt));
    },
    (
      record {
        path = refl;
        mode = omega arith;
        secs = tt;
        nsecs = tt;
        short = omega arith;
        chunks = tt;
      },
      tt,
    ),
  ),
)

-- A wire that keeps the low bits of each number.
abbrev int32 : ℤ → ℤ
int32 (pos n) =
    let low = n % 4294967296 in if ltb low 2147483648 then pos low else negsuc (4294967295 - low)
int32 (negsuc n) =
    let low = n % 4294967296 in if ltb low 2147483648 then negsuc low else pos (4294967295 - low)

abbrev uint32 : ℤ → ℤ
uint32 (pos n) = pos (n % 4294967296)
uint32 (negsuc n) = pos (4294967295 - n % 4294967296)

abbrev each : {A : Type 0} → (A → A) → Option A → Option A
each f none = none
each f (some a) = some (f a)

abbrev wire : Message ℤ → Message ℤ
wire m = record m {
  mode = each (λ n. n % 4294967296) m.mode;
  mtime = each int32 m.mtime;
  mtime_nsecs = each uint32 m.mtime_nsecs;
}

int32_same : (z : ℤ) → FitsInt32 z → int32 z ≡ z
int32_same (pos n) h = ground (arith, h)
int32_same (negsuc n) h = ground (arith, h)

uint32_same : (z : ℤ) → FitsUint32 z → uint32 z ≡ z
uint32_same (pos n) h = ground (arith, h)
uint32_same (negsuc n) h = absurd h

each_same :
    {A : Type 0} (P : A → Type 0) (f : A → A)
    → ((a : A) → P a → f a ≡ a)
    → (o : Option A) → WhenSet P o
    → each f o ≡ o
each_same P f same none h = refl
each_same P f same (some a) h = ap some (same a h)

wire-IsWire : IsWire wire
wire-IsWire m h =
    ap
      (λ x. record m {
        mode = x;
        mtime = each int32 m.mtime;
        mtime_nsecs = each uint32 m.mtime_nsecs;
      })
      (each_same (λ n. n < 4294967296) (λ n. n % 4294967296) (λ n k. omega (arith, k)) m.mode
        h.mode)
    ∙ ap (λ x. record m { mtime = x; mtime_nsecs = each uint32 m.mtime_nsecs })
        (each_same FitsInt32 int32 int32_same m.mtime h.mtime)
    ∙ ap (λ x. record m { mtime_nsecs = x })
        (each_same FitsUint32 uint32 uint32_same m.mtime_nsecs h.mtime_nsecs)

add-send_files_example :
    ((send_files 1 candidates).1 ≡ none)
    × (add {E = Bool} (map wire (send_files 1 candidates).0) none ≡ (map received candidates, none))
add-send_files_example =
    add-send_files wire Bool candidates wire-IsWire (omega arith) candidates-IsInRange
      candidates-IsSendable

-- A time of 2^31 seconds does not fit its field: it comes out as one before 1970.
abbrev late : Candidate ℤ
late = record {
  path = codes "d";
  mode = none;
  mtime = some (record { secs = pos 2147483648; nsecs = none });
  content = none;
}

late_time :
    (add {E = Bool} (map wire (send_files 1 (late ∷ [])).0) none).0
    ≡ record {
      path = codes "d";
      mode = none;
      mtime = some (record { secs = negsuc 2147483647; nsecs = none });
      content = none;
    }
      ∷ []
unfolding add send_files
late_time = refl

-- The end of the file comes with the empty chunk, and the rest is a file of its own.
abbrev empty_chunk : Candidate ℤ
empty_chunk = record two_chunks { content = some ((1 ∷ []) ∷ [] ∷ (2 ∷ []) ∷ []) }

split_in_two :
    (add {E = Bool} (send_files 1 (empty_chunk ∷ [])).0 none).0
    ≡ record {
      path = codes "a.txt";
      mode = some 420;
      mtime = some (record { secs = pos 7; nsecs = none });
      content = some (record { chunks = (1 ∷ []) ∷ []; ended = true });
    }
      ∷ record {
        path = codes "a.txt";
        mode = some 420;
        mtime = some (record { secs = pos 7; nsecs = none });
        content = some (record { chunks = (2 ∷ []) ∷ []; ended = true });
      }
      ∷ []
unfolding add send_files
split_in_two = refl
