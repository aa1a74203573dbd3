-- ===== src/Serialization/Appends.antt =====
-- Writers that append and the readers that take back what they wrote, put together piece by piece.
use libmw_core.Common.{
  ℕ, ◌^◌, ◌<◌, ◌≡◌, refl, sym, ap, ◌∙◌, List, [], ◌∷◌, ◌++◌, append_assoc, append-nil,
}
use libmw_core.Common.{length, All, u64_mod}
use libmw_core.Exceptions.{ok}
use libmw_core.Util.EndianUtil.{Bytes, Platform}
use libmw_core.Serialization.{Read, ◌>>=◌, pure, append_int, append_vector, read_int, read_vector}
use libmw_core.Serialization.{append_all, read_times}
use libmw_core.Serialization.Order.{be_bytes, append_int-be_bytes}
use libmw_core.Serialization.Reads.{
  Reads, Reads-bind, Reads-pure, read_int-Reads, read_vector-Reads,
}
use libmw_core.Serialization.RoundTrip.{standing, Reads-standing}

-- `write` appends some bytes, the same behind every buffer, and `read` takes `a` off them.
pub record RoundTrips {A : Type 0} (write : Bytes → Bytes) (read : Read A) (a : A) : Type 0 where
  pub encoding : Bytes
  pub appends : (s : Bytes) → write s ≡ s ++ encoding
  pub reads : Reads read encoding a

pub RoundTrips-pure : {A : Type 0} (a : A) → RoundTrips (λ s. s) (pure a) a
RoundTrips-pure a = record {
  encoding = [];
  appends = λ s. sym (append-nil s);
  reads = Reads-pure a;
}

pub RoundTrips-bind :
    {A B : Type 0} (w v : Bytes → Bytes) (r : Read A) (f : A → Read B) (a : A) (b : B)
    → RoundTrips w r a
    → RoundTrips v (f a) b
    → RoundTrips (λ s. v (w s)) (r >>= f) b
RoundTrips-bind w v r f a b t u = record {
  encoding = t.encoding ++ u.encoding;
  appends =
      λ s. ap v (t.appends s) ∙ u.appends (s ++ t.encoding) ∙ append_assoc s t.encoding u.encoding;
  reads = Reads-bind r f t.encoding u.encoding a b t.reads u.reads;
}

module _ ⦃p : Platform⦄ where
  pub append_int-RoundTrips :
      (size v : ℕ) → v < 256 ^ size → RoundTrips (append_int size v) (read_int size) v
  append_int-RoundTrips size v h = record {
    encoding = be_bytes size v;
    appends = append_int-be_bytes size v;
    reads = read_int-Reads size v h;
  }

pub append_vector-RoundTrips :
    (bs : Bytes) → RoundTrips (append_vector bs) (read_vector (length bs)) bs
unfolding append_vector
append_vector-RoundTrips bs = record {
  encoding = bs;
  appends = λ s. refl;
  reads = read_vector-Reads bs;
}

-- A run of writes, and as many reads.
pub append_all-RoundTrips :
    {A : Type 0} (write : A → Bytes → Bytes) (read : Read A) (xs : List A)
    → All (λ x. RoundTrips (write x) read x) xs
    → RoundTrips (append_all write xs) (read_times (length xs) read) xs
unfolding append_all read_times
append_all-RoundTrips write read [] h = RoundTrips-pure []
append_all-RoundTrips write read (x ∷ xs) (h, hs) =
    RoundTrips-bind (write x) (append_all write xs) read
      (λ a. read_times (length xs) read >>= λ ys. pure (a ∷ ys)) x (x ∷ xs) h
      (RoundTrips-bind (append_all write xs) (λ s. s) (read_times (length xs) read)
        (λ ys. pure (x ∷ ys)) xs (x ∷ xs) (append_all-RoundTrips write read xs hs)
        (RoundTrips-pure (x ∷ xs)))

-- In the form of the code's calls: what was appended anywhere is read back.
pub RoundTrips-standing :
    {A : Type 0} (write : Bytes → Bytes) (read : Read A) (a : A) (front rest : Bytes)
    → RoundTrips write read a
    → length (write front ++ rest) < u64_mod
    → read (standing front (write front ++ rest))
      ≡ ok (a, standing (write front) (write front ++ rest))
RoundTrips-standing write read a front rest t fits =
    Reads-standing read t.encoding a front (write front) rest t.reads (t.appends front) fits

-- A read whose value is passed on to a constructor.
pub RoundTrips-map :
    {A B : Type 0} (w : Bytes → Bytes) (r : Read A) (f : A → B) (a : A)
    → RoundTrips w r a
    → RoundTrips w (r >>= λ x. pure (f x)) (f a)
RoundTrips-map w r f a t =
    RoundTrips-bind w (λ s. s) r (λ x. pure (f x)) a (f a) t (RoundTrips-pure (f a))

-- A writer that writes the same.
pub RoundTrips-same :
    {A : Type 0} (w v : Bytes → Bytes) (r : Read A) (a : A)
    → ((s : Bytes) → w s ≡ v s)
    → RoundTrips v r a
    → RoundTrips w r a
RoundTrips-same w v r a e t = record {
  encoding = t.encoding;
  appends = λ s. e s ∙ t.appends s;
  reads = t.reads;
}
