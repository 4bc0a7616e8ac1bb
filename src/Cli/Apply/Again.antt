-- ===== src/Cli/Apply/Again.antt =====
-- internal/cli/apply.go: what `Apply` leaves on the server, and what it does when it runs again.
use mathlib.Core.Path.{subst}
use ghostgpu.Base.{
  Option, none, some, List, [], ◌∷◌, map, ◌≡◌, refl, sym, ap, inl, inr, Result, ok, err,
  Result-cases, Text, All, All-imp,
}
use ghostgpu.Platform.{Platform}
use ghostgpu.Cli.Objects.{Object, kind_of, name_of}
use ghostgpu.Cli.Apply.{
  ReadError, not_found, read_failed, Server, Line, created, configured, ApplyError, Applied,
  shown_kind, reported, written, apply_object, continued, apply,
}

-- The kind and the name that a line is about.
abbrev pub subject : Line → Text × Text
subject (created kind name) = (kind, name)
subject (configured kind name) = (kind, name)

abbrev pub IsConfigured : Line → Type 0
IsConfigured (created kind name) = ⊥
IsConfigured (configured kind name) = Unit

module _ (P : Platform) (S : Server P) where
  -- An object of that kind and name can be read.
  abbrev pub IsThere : Text → Text → S.Store → Type 0
  IsThere kind name store = (version : Text) × (S.get kind name store ≡ ok version)

  -- What the server documents: an object that was created or updated can be read, and a write of an
  -- object removes no other.
  pub record IsServer : Type 0 where
    pub get-create :
        (o : Object P) (store : S.Store)
        → (S.create o store).0 ≡ ok tt
        → IsThere (kind_of P o) (name_of P o) (S.create o store).1
    pub get-update :
        (o : Object P) (version : Text) (store : S.Store)
        → (S.update o version store).0 ≡ ok tt
        → IsThere (kind_of P o) (name_of P o) (S.update o version store).1
    pub create-keeps :
        (o : Object P) (store : S.Store) (kind name : Text)
        → IsThere kind name store
        → IsThere kind name (S.create o store).1
    pub update-keeps :
        (o : Object P) (version : Text) (store : S.Store) (kind name : Text)
        → IsThere kind name store
        → IsThere kind name (S.update o version store).1

  -- Every object can be read afterwards, and has its line.
  abbrev pub IsDone : List (Object P) → Applied P S → Type 0
  IsDone objects a =
      All (λ o. IsThere (kind_of P o) (name_of P o) a.store) objects
      × (map subject a.lines ≡ map (λ o. (shown_kind P S o, name_of P o)) objects)

  module _ (L : IsServer) where
    written-keeps :
        (o : Object P) (read : Result ReadError Text) (store : S.Store) (kind name : Text)
        → IsThere kind name store
        → IsThere kind name (written P S o read store).1
    unfolding written
    written-keeps o (err not_found) store kind name h = L.create-keeps o store kind name h
    written-keeps o (err (read_failed message)) store kind name h = h
    written-keeps o (ok version) store kind name h = L.update-keeps o version store kind name h

    reported-ok :
        (error : Text → ApplyError) (a line : Line) (r : Result Text Unit)
        → reported P S error a r ≡ ok line
        → (r ≡ ok tt) × (a ≡ line)
    reported-ok error a line (ok tt) e = (refl, line_inj a line e)
      where
        line_inj : (a b : Line) → ◌≡◌ {A = Result ApplyError Line} (ok a) (ok b) → a ≡ b
        line_inj a b e = cc
    reported-ok error a line (err message) e = cc

    -- What a write that succeeds leaves, and the line that it prints.
    written-IsThere :
        (o : Object P) (read : Result ReadError Text) (store : S.Store) (line : Line)
        → (written P S o read store).0 ≡ ok line
        → IsThere (kind_of P o) (name_of P o) (written P S o read store).1
          × (subject line ≡ (shown_kind P S o, name_of P o))
    unfolding written
    written-IsThere o (err not_found) store line e =
        let (made, same) = reported-ok _ _ line (S.create o store).0 e in
        (L.get-create o store made, ap subject (sym same))
    written-IsThere o (err (read_failed message)) store line e = cc
    written-IsThere o (ok version) store line e =
        let (made, same) = reported-ok _ _ line (S.update o version store).0 e in
        (L.get-update o version store made, ap subject (sym same))

    written-IsConfigured :
        (o : Object P) (version : Text) (store : S.Store) (line : Line)
        → (written P S o (ok version) store).0 ≡ ok line
        → IsConfigured line
    unfolding written
    written-IsConfigured o version store line e =
        let (made, same) = reported-ok _ _ line (S.update o version store).0 e in
        subst IsConfigured same tt

    apply-keeps :
        (objects : List (Object P)) (store : S.Store) (kind name : Text)
        → IsThere kind name store
        → IsThere kind name (apply P S objects store).store
    unfolding apply apply_object
    apply-keeps [] store kind name h = h
    apply-keeps (o ∷ objects) store kind name h =
        let read = S.get (kind_of P o) (name_of P o) store in
        let kept = written-keeps o read store kind name h in
        elim (Result-cases (written P S o read store).0) [
          | inl (line, e) ↦ rw e (apply-keeps objects (written P S o read store).1 kind name kept)
          | inr (error, e) ↦ rw e kept
        ]

    continued-IsDone :
        (o : Object P) (objects : List (Object P)) (r : Result ApplyError Line) (after : S.Store)
        → ((line : Line)
            → r ≡ ok line
            → IsThere (kind_of P o) (name_of P o) after
              × (subject line ≡ (shown_kind P S o, name_of P o)))
        → ((apply P S objects after).error ≡ none → IsDone objects (apply P S objects after))
        → (continued P S r after (apply P S objects after)).error ≡ none
        → IsDone (o ∷ objects) (continued P S r after (apply P S objects after))
    continued-IsDone o objects (ok line) after now later e =
        let (there, named) = now line refl in
        let (done, lines) = later e in
        (
          (apply-keeps objects after (kind_of P o) (name_of P o) there, done),
          rw (named, lines) refl,
        )
    continued-IsDone o objects (err error) after now later e = absurd (some_is_not_none error e)
      where
        some_is_not_none : (error : ApplyError) → ◌≡◌ {A = Option ApplyError} (some error) none → ⊥
        some_is_not_none error e = cc

    apply-IsDone :
        (objects : List (Object P)) (store : S.Store)
        → (apply P S objects store).error ≡ none
        → IsDone objects (apply P S objects store)
    unfolding apply apply_object
    apply-IsDone [] store e = (tt, refl)
    apply-IsDone (o ∷ objects) store e =
        let read = S.get (kind_of P o) (name_of P o) store in
        let after = (written P S o read store).1 in
        continued-IsDone o objects (written P S o read store).0 after (written-IsThere o read store)
          (apply-IsDone objects after) e

    again-IsConfigured :
        (objects : List (Object P)) (store : S.Store)
        → All (λ o. IsThere (kind_of P o) (name_of P o) store) objects
        → All IsConfigured (apply P S objects store).lines
    unfolding apply apply_object
    again-IsConfigured [] store h = tt
    again-IsConfigured (o ∷ objects) store ((version, found), h) =
        let after = (written P S o (ok version) store).1 in
        let kept =
          All-imp (λ x there. written-keeps o (ok version) store (kind_of P x) (name_of P x) there)
            objects h in
        elim (Result-cases (written P S o (ok version) store).0) [
          | inl (line, w) ↦
              rw (found, w)
                (written-IsConfigured o version store line w, again-IsConfigured objects after kept)
          | inr (error, w) ↦ rw (found, w) tt
        ]

    -- On a server that keeps what is written, an application without an error leaves every object on
    -- the server, with one line for each in their order; and the same application, run again, creates
    -- none of them: every line says that the object was configured.
    pub apply-twice :
        (objects : List (Object P)) (store : S.Store)
        → (apply P S objects store).error ≡ none
        → IsDone objects (apply P S objects store)
          × All IsConfigured (apply P S objects (apply P S objects store).store).lines
    apply-twice objects store e =
        let done = apply-IsDone objects store e in
        (done, again-IsConfigured objects (apply P S objects store).store done.0)
