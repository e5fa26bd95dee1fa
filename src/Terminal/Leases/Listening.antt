-- ===== src/Terminal/Leases/Listening.antt =====
-- src/terminal-server.js: the rooms that the server listens to, whatever is registered and released.
use git_pigeon.Prelude.{
  ℕ, Bool, true, false, not, ◌||◌, ◌&&◌, Option, none, some, is_some, List, [], ◌∷◌, ◌++◌, map,
  filter, any, ◌==◌, if◌then◌else◌, Bool-cases, if-cases, not-true, ◌≡◌, refl, ap, inl, inr, arith,
  and_left, and_right,
}
use git_pigeon.Prelude.Assoc.{Assoc, get, remove, get-put, get-remove_if}
use git_pigeon.Prelude.Members.{contains-append, contains-filter}
use git_pigeon.Prelude.Text.{Text, text_eq, text_eq→eq, text_eq_comm, is_empty, contains}
use git_pigeon.Terminal.Leases.{
  LocalClone, Roads, no_roads, entries_of, listen, listen_all, add_repository, left_over,
  release_lease, start_listening, stop_listening, Act, adds, releases, starts, stops, unless_thrown,
  act, act_all,
}

contains-same :
    (room other : Text) (rooms : List Text)
    → text_eq room other ≡ true
    → contains room rooms ≡ contains other rooms
contains-same room other rooms h = ap (λ (r : Text). contains r rooms) (text_eq→eq room other h)

contains-listen :
    (room other : Text) (rooms : List Text)
    → contains room (listen other rooms) ≡ (contains room rooms || text_eq room other)
unfolding listen contains
contains-listen room other rooms = elim (Bool-cases (contains other rooms)) [
  | inl e ↦ rw e (ground (arith, e, contains-same room other rooms))
  | inr e ↦ rw e (ground (arith, contains-append room rooms (other ∷ [])))
]

contains-listen_all :
    (room : Text) (more rooms : List Text)
    → contains room (listen_all more rooms) ≡ (contains room rooms || contains room more)
unfolding listen_all contains
contains-listen_all room [] rooms = ground arith
contains-listen_all room (other ∷ more) rooms =
    ground
      (arith, contains-listen_all room more (listen other rooms), contains-listen room other rooms)

contains-keys :
    (room : Text) (m : Assoc (List LocalClone))
    → contains room (map (λ e. e.0) m) ≡ is_some (get room m)
unfolding contains get
contains-keys room [] = refl
contains-keys room ((k, e) ∷ m) = ground (arith, contains-keys room m, text_eq_comm room k)

get-removed :
    (id room : Text) (m : Assoc (List LocalClone))
    → get room (remove id m) ≡ (if text_eq room id then none else get room m)
unfolding remove
get-removed id room m = get-remove_if (λ r. text_eq r id) room m

module _ (device_room : Text) where
  -- The server listens to the room of its device and to those of the repositories that are leased, and to no other,
  -- and only while it serves.
  pub record IsListening (s : Roads) : Type 0 where
    pub rooms :
        (room : Text)
        → contains room s.subscriptions
          ≡ (s.serving && (text_eq room device_room || is_some (get room s.repositories)))
    pub apart : get device_room s.repositories ≡ none

  -- No repository has the name of the device's room.
  abbrev pub names_other : Act → Bool
  names_other (adds id root) = not (text_eq id device_room)
  names_other (releases id lease) = not (text_eq id device_room)
  names_other starts = true
  names_other stops = true

  unfoldable pub all_name_others : List Act → Bool
  all_name_others [] = true
  all_name_others (a ∷ acts) = names_other a && all_name_others acts

  add_repository-IsListening :
      (id root : Text) (s : Roads)
      → text_eq id device_room ≡ false
      → IsListening s
      → IsListening (unless_thrown s (add_repository id root s))
  unfolding add_repository
  add_repository-IsListening id root s n h = elim (Bool-cases (is_empty id)) [
    | inl e ↦ rw e h
    | inr e ↦ rw e record {
      rooms = λ room. ground (
        arith,
        h.rooms room,
        contains-listen room id s.subscriptions,
        get-put id room
            (entries_of (get id s.repositories) ++ (record { lease = s.next; root = root } ∷ []))
            s.repositories,
        text_eq_comm room id,
      );
      apart = ground (
        arith,
        n,
        h.apart,
        get-put id device_room
            (entries_of (get id s.repositories) ++ (record { lease = s.next; root = root } ∷ []))
            s.repositories,
      );
    }
  ]

  left_over-IsListening :
      (id : Text) (entries : List LocalClone) (s : Roads)
      → text_eq id device_room ≡ false
      → (is_some (get id s.repositories) ≡ false → entries ≡ [])
      → IsListening s
      → IsListening (left_over id entries s)
  left_over-IsListening id [] s n k h = record {
    rooms = λ room. ground (
      arith,
      h.rooms room,
      contains-filter (λ r. not (text_eq r id)) room s.subscriptions,
      get-removed id room s.repositories,
      n,
      text_eq→eq room id,
      text_eq→eq room device_room,
    );
    apart = ground (arith, n, h.apart, get-removed id device_room s.repositories);
  }
  left_over-IsListening id (e ∷ entries) s n k h =
      let found : is_some (get id s.repositories) ≡ true =
        elim (Bool-cases (is_some (get id s.repositories))) [ inl q ↦ q | inr q ↦ cc (k q) ] in
      record {
        rooms = λ room. ground (
          arith,
          h.rooms room,
          found,
          get-put id room (e ∷ entries) s.repositories,
          text_eq→eq id room,
        );
        apart = ground (arith, n, h.apart, get-put id device_room (e ∷ entries) s.repositories);
      }

  none_left :
      (lease : ℕ) (o : Option (List LocalClone))
      → is_some o ≡ false
      → filter (λ e. not (e.lease == lease)) (entries_of o) ≡ []
  unfolding filter
  none_left lease none h = refl
  none_left lease (some entries) h = cc

  release_lease-IsListening :
      (id : Text) (lease : ℕ) (s : Roads)
      → text_eq id device_room ≡ false
      → IsListening s
      → IsListening (release_lease id lease s)
  unfolding release_lease
  release_lease-IsListening id lease s n h =
      if-cases IsListening (any (λ n. n == lease) s.released) _ _ h (
        left_over-IsListening id _ (record s { released = lease ∷ s.released }) n
          (none_left lease (get id s.repositories)) record { rooms = h.rooms; apart = h.apart })

  start_listening-IsListening :
      (s : Roads) → IsListening s → IsListening (start_listening device_room s)
  unfolding start_listening
  start_listening-IsListening s h = elim (Bool-cases s.serving) [
    | inl e ↦ simp e h
    | inr e ↦ simp e record {
      rooms = λ room. ground (
        arith,
        e,
        h.rooms room,
        contains-keys room s.repositories,
        contains-listen room device_room s.subscriptions,
        contains-listen_all room (map (λ e. e.0) s.repositories)
            (listen device_room s.subscriptions),
      );
      apart = h.apart;
    }
  ]

  stop_listening-IsListening : (s : Roads) → IsListening s → IsListening (stop_listening s)
  unfolding stop_listening contains
  stop_listening-IsListening s h =
      if-cases IsListening s.serving _ _ record { rooms = λ room. refl; apart = h.apart } h

  act-IsListening :
      (a : Act) (s : Roads)
      → names_other a ≡ true
      → IsListening s
      → IsListening (act device_room a s)
  unfolding act
  act-IsListening (adds id root) s n h = add_repository-IsListening id root s (not-true _ n) h
  act-IsListening (releases id lease) s n h = release_lease-IsListening id lease s (not-true _ n) h
  act-IsListening starts s n h = start_listening-IsListening s h
  act-IsListening stops s n h = stop_listening-IsListening s h

  act_all-IsListening :
      (acts : List Act) (s : Roads)
      → all_name_others acts ≡ true
      → IsListening s
      → IsListening (act_all device_room acts s)
  unfolding act_all all_name_others
  act_all-IsListening [] s n h = h
  act_all-IsListening (a ∷ acts) s n h =
      act_all-IsListening acts (act device_room a s) (and_right _ _ n)
        (act-IsListening a s (and_left _ _ n) h)

  -- Whatever is registered, released, started and stopped, and in whatever order, the server listens to the room of
  -- its device and to those of the repositories that it has, and to no other room, and only while it serves, as
  -- long as no repository is named like the device's room.
  pub no_roads-act_all-IsListening :
      (acts : List Act)
      → all_name_others acts ≡ true
      → IsListening (act_all device_room acts no_roads)
  no_roads-act_all-IsListening acts n =
      act_all-IsListening acts no_roads n
        record { rooms = unfold contains in λ room. refl; apart = unfold get in refl }
