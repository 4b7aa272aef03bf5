-- ===== src/PipelineService/Kept.antt =====
-- The active pipelines and the builds in flight of src/PipelineService.cpp, in every run.
use orgmodule_services.Common.{
  ℕ, ◌≡◌, ◌∙◌, refl, sym, true, false, [], ◌∷◌, ◌==◌, arith, elim-cases,
}
use orgmodule_services.Flights.{Flight, new_flight, result, attach, finish}
use orgmodule_services.PipelineService.{
  Artifact, Found, Service, new_service, write, find_flight, on_flight, request, end_build,
  attach_callback, finish_flight, retire,
}
use orgmodule_services.PipelineService.Publishing.{publish_one, publish_flights, publish_ready}
use orgmodule_services.PipelineService.Runs.{
  Step, request_step, build_step, attach_step, finish_step, publish_step, retire_step, take_step,
  Reached, made, took,
}
use orgmodule_services.PipelineService.Single.{
  has, IsSingle, publish_one-IsSingle, publish_one-free,
}
use orgmodule_services.PipelineService.Keys.{
  Flights, in_keys, AllApart, in_keys-on_flight, apart-on_flight, in_keys-insert_at,
  apart-insert_at, find-in_keys,
}

-- The builds in flight have keys of their own, none of them an active one.
pub record IsOrdered (s : Service) : Type 0 where
  pub single : IsSingle s
  pub apart : AllApart s.in_flight
  pub free : (k : ℕ) → in_keys k s.in_flight ≡ true → has (s.active k) ≡ false

on_flight-IsOrdered :
    (key : ℕ) (g : Flight Artifact → Flight Artifact) (s : Service)
    → IsOrdered s
    → IsOrdered (record s { in_flight = on_flight key g s.in_flight })
on_flight-IsOrdered key g s c = record {
  single = record {
    keyed = c.single.keyed;
    named = c.single.named;
    listed = c.single.listed;
    identified = c.single.identified;
  };
  apart = apart-on_flight key g s.in_flight c.apart;
  free = λ k h. c.free k (sym (in_keys-on_flight k key g s.in_flight) ∙ h);
}

request-IsOrdered :
    (place key id : ℕ) (s : Service) → IsOrdered s → IsOrdered (request place key id s).0
unfolding request write
request-IsOrdered place key id s c =
    elim-cases (λ (p : Service × Found). IsOrdered p.0) (s.active key) _ _
      (λ free.
        elim-cases (λ (p : Service × Found). IsOrdered p.0) (find_flight key s.in_flight) _ _
          (λ new.
            let absent = find-in_keys key s.in_flight new in
            let single = c.single in
            record {
              single = record {
                keyed = single.keyed;
                named = λ i k h.
                    (let there = single.keyed i k h in
                      let name = single.named i k h in ground (arith, there, name, free));
                listed = λ i k h name.
                    (let kept = single.listed i k in ground (arith, kept, h, name, free));
                identified = λ k h. (let kept = single.identified k in ground (arith, kept, h));
              };
              apart = apart-insert_at place (key, new_flight) s.in_flight absent c.apart;
              free = λ k h.
                  (let kept = c.free k in
                    let there = in_keys-insert_at k place (key, new_flight) s.in_flight in
                    ground (arith, kept, there, h, free));
            })
          (λ f e. c))
      (λ a e. c)

-- What the loop over the flights keeps.
record IsLoop (xs : Flights) (s : Service) (p : Service × Flights) : Type 0 where
  single : IsSingle p.0
  stays : (k : ℕ) → in_keys k xs ≡ false → has (s.active k) ≡ false → has (p.0.active k) ≡ false
  left : (k : ℕ) → in_keys k p.1 ≡ true → in_keys k xs ≡ true
  free : (k : ℕ) → in_keys k p.1 ≡ true → has (p.0.active k) ≡ false
  apart : AllApart p.1

publish_flights-IsLoop :
    (fence : ℕ) (xs : Flights) (s : Service)
    → IsSingle s
    → AllApart xs
    → ((k : ℕ) → in_keys k xs ≡ true → has (s.active k) ≡ false)
    → IsLoop xs s (publish_flights fence xs s)
unfolding publish_flights in_keys
publish_flights-IsLoop fence [] s c a free = record {
  single = c;
  stays = λ k out h. h;
  left = λ k h. h;
  free = λ k h. absurd cc;
  apart = tt;
}
publish_flights-IsLoop fence (x ∷ xs) s c a free =
    elim-cases (IsLoop (x ∷ xs) s) (result x.1) _ _
      (λ e.
        let rest =
          publish_flights-IsLoop fence xs s c a.1
            (λ k h. (let f = free k in ground (arith, f, h))) in
        let head = free x.0 in
        let not_later = a.0 in
        record {
          single = rest.single;
          stays = λ k out h. (let kept = rest.stays k in ground (arith, kept, out, h));
          left = λ k h. (let kept = rest.left k in ground (arith, kept, h));
          free = λ k h.
              (let kept = rest.free k in
                let mine = rest.stays x.0 not_later (ground (arith, head)) in
                ground (arith, kept, mine, h));
          apart = ((let back = rest.left x.0 in ground (arith, back, not_later)), rest.apart);
        })
      (λ b e.
        let head = free x.0 in
        let not_later = a.0 in
        let vacant : has (s.active x.0) ≡ false = ground (arith, head) in
        let next = publish_one fence x.0 b s in
        let still : (k : ℕ)
            → (k == x.0) ≡ false
            → has (s.active k) ≡ false
            → has (next.active k) ≡ false =
          λ k ne h. publish_one-free fence x.0 k b s (λ same. ground (arith, ne, same)) h in
        let rest =
          publish_flights-IsLoop fence xs next (publish_one-IsSingle fence x.0 b s vacant c) a.1
            (λ k h.
              (let f = free k in let kept = still k in ground (arith, f, kept, not_later, h))) in
        record {
          single = rest.single;
          stays = λ k out h.
              (let kept = rest.stays k in
                let before = still k in ground (arith, kept, before, out, h));
          left = λ k h. (let kept = rest.left k in ground (arith, kept, h));
          free = rest.free;
          apart = rest.apart;
        })

publish_ready-IsOrdered :
    (fence : ℕ) (s : Service) → IsOrdered s → IsOrdered (publish_ready fence s)
unfolding publish_ready
publish_ready-IsOrdered fence s c =
    let loop = publish_flights-IsLoop fence s.in_flight s c.single c.apart c.free in
    let single = loop.single in
    record {
      single = record {
        keyed = single.keyed;
        named = single.named;
        listed = single.listed;
        identified = single.identified;
      };
      apart = loop.apart;
      free = loop.free;
    }

take_step-IsOrdered : (t : Step) (s : Service) → IsOrdered s → IsOrdered (take_step t s)
unfolding take_step end_build attach_callback finish_flight retire
take_step-IsOrdered (request_step place key id) s c = request-IsOrdered place key id s c
take_step-IsOrdered (build_step key generation built) s c = on_flight-IsOrdered key _ s c
take_step-IsOrdered (attach_step key callback) s c = on_flight-IsOrdered key (attach callback) s c
take_step-IsOrdered (finish_step key) s c = on_flight-IsOrdered key finish s c
take_step-IsOrdered (publish_step fence) s c = publish_ready-IsOrdered fence s c
take_step-IsOrdered (retire_step completed) s c = record {
  single = record {
    keyed = c.single.keyed;
    named = c.single.named;
    listed = c.single.listed;
    identified = c.single.identified;
  };
  apart = c.apart;
  free = c.free;
}

-- In every run: an id's active key has an active pipeline and is recorded as that id's; every active key has
-- an id, and is that id's active key; and the builds in flight have different keys, none of them active.
pub Reached-IsOrdered : (s : Service) → Reached s → IsOrdered s
unfolding new_service in_keys
Reached-IsOrdered _ made = record {
  single = record {
    keyed = λ i k h. absurd cc;
    named = λ i k h. absurd cc;
    listed = λ i k h name. absurd cc;
    identified = λ k h. h;
  };
  apart = tt;
  free = λ k h. refl;
}
Reached-IsOrdered _ (took t s r) = take_step-IsOrdered t s (Reached-IsOrdered s r)
