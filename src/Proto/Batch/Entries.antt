-- ===== src/Proto/Batch/Entries.antt =====
-- paf/client.py and paf/server.py: what the loops put into a message is what they pull from it.
use paf.Prelude.{
  ◌≡◌, refl, sym, ap, subst, ◌∙◌, true, false, Option, none, some, List, [], ◌∷◌, ◌++◌, map,
  append_assoc, append-nil, Text, arith, nat_eq, text_eq,
}
use paf.Prelude.Dict.{Dict, lookup, erase}
use paf.Prelude.Keys.{
  occurs, apart, apart-before, apart-head, apart-drop, apart-rest, all_keys, all_keys-append,
  lookup-absent, insert_new, lookup-front, erase-front,
}
use paf.Proto.Fields.{Field, Message, Pulled, python_name, pull, put, wire}
use paf.Proto.Batch.{pull_all, pull_opts, put_all, put_opts, with_optarg, put_optional}
use paf.Proto.RoundTrip.{IsValue, pull-front, pull-absent}

abbrev pub names : List Field → List Text
names fs = map Field.name fs

-- The values for a list of fields, one for each and of its class.
abbrev pub AreValues : List Field → List Pulled → Type 0
AreValues [] [] = Unit
AreValues (f ∷ fs) (v ∷ vs) = IsValue f.kind v × AreValues fs vs
AreValues _ _ = ⊥

abbrev pub entries : List Field → List Pulled → Message
entries (f ∷ fs) (v ∷ vs) = (f.name, wire v) ∷ entries fs vs
entries _ _ = []

-- An argument of a call for each field that may be left out: none, `None`, or a value.
abbrev pub Optional : Type 0
Optional = Option (Option Pulled)

abbrev pub AreOptional : List Field → List Optional → Type 0
AreOptional [] [] = Unit
AreOptional (f ∷ fs) (none ∷ gs) = AreOptional fs gs
AreOptional (f ∷ fs) (some none ∷ gs) = AreOptional fs gs
AreOptional (f ∷ fs) (some (some v) ∷ gs) = IsValue f.kind v × AreOptional fs gs
AreOptional _ _ = ⊥

-- The keyword arguments of the call.
abbrev pub optargs_of : List Field → List Optional → Dict Text (Option Pulled)
optargs_of (f ∷ fs) (none ∷ gs) = optargs_of fs gs
optargs_of (f ∷ fs) (some o ∷ gs) = (python_name f, o) ∷ optargs_of fs gs
optargs_of _ _ = []

abbrev pub opt_entries : List Field → List Optional → Message
opt_entries (f ∷ fs) (some (some v) ∷ gs) = (f.name, wire v) ∷ opt_entries fs gs
opt_entries (f ∷ fs) (_ ∷ gs) = opt_entries fs gs
opt_entries _ _ = []

-- The values that are given, as the receiver keeps them.
abbrev pub received : (Field → Text) → List Field → List Optional → Dict Text Pulled
received key (f ∷ fs) (some (some v) ∷ gs) = (key f, v) ∷ received key fs gs
received key (f ∷ fs) (_ ∷ gs) = received key fs gs
received key _ _ = []

put-append :
    (f : Field) (v : Pulled) (msg : Message) (ns : List Text)
    → apart (all_keys msg ++ f.name ∷ ns) ≡ true
    → put f v msg ≡ msg ++ (f.name, wire v) ∷ []
unfolding put
put-append f v msg ns h =
    insert_new f.name (wire v) msg
      (lookup-absent f.name msg (apart-before f.name (all_keys msg) ns h))

-- The names that are still to come stay apart from those of the message.
grown-apart :
    {V : Type 0} (n : Text) (v : V) (msg : Dict Text V) (ns : List Text)
    → apart (all_keys msg ++ n ∷ ns) ≡ true
    → apart (all_keys (msg ++ (n, v) ∷ []) ++ ns) ≡ true
grown-apart n v msg ns h =
    subst (λ ks. apart ks ≡ true)
      (sym (
        ap (λ ks. ks ++ ns) (all_keys-append msg ((n, v) ∷ []))
        ∙ append_assoc (all_keys msg) (n ∷ []) ns))
      h

pub put_all-entries :
    (fs : List Field) (vs : List Pulled) (msg : Message)
    → AreValues fs vs
    → apart (all_keys msg ++ names fs) ≡ true
    → put_all fs vs msg ≡ some (msg ++ entries fs vs)
unfolding put_all
put_all-entries [] [] msg h d = ap some (sym (append-nil msg))
put_all-entries [] (v ∷ vs) msg h d = absurd h
put_all-entries (f ∷ fs) [] msg h d = absurd h
put_all-entries (f ∷ fs) (v ∷ vs) msg h d =
    ap (put_all fs vs) (put-append f v msg (names fs) d)
    ∙ put_all-entries fs vs (msg ++ (f.name, wire v) ∷ []) h.1
        (grown-apart f.name (wire v) msg (names fs) d)
    ∙ ap some (append_assoc msg ((f.name, wire v) ∷ []) (entries fs vs))

pull_all-step :
    (f : Field) (fs : List Field) (msg rest end : Message) (v : Option Pulled)
    (vs : List (Option Pulled))
    → pull f false msg ≡ some (v, rest)
    → pull_all fs rest ≡ some (vs, end)
    → pull_all (f ∷ fs) msg ≡ some (v ∷ vs, end)
unfolding pull_all
pull_all-step f fs msg rest end v vs e e' = ground arith

pub pull_all-entries :
    (fs : List Field) (vs : List Pulled) (rest : Message)
    → AreValues fs vs
    → pull_all fs (entries fs vs ++ rest) ≡ some (map some vs, rest)
unfolding pull_all
pull_all-entries [] [] rest h = refl
pull_all-entries [] (v ∷ vs) rest h = absurd h
pull_all-entries (f ∷ fs) [] rest h = absurd h
pull_all-entries (f ∷ fs) (v ∷ vs) rest h =
    pull_all-step f fs ((f.name, wire v) ∷ (entries fs vs ++ rest)) (entries fs vs ++ rest) rest
      (some v) (map some vs) (pull-front f v (entries fs vs ++ rest) false h.0)
      (pull_all-entries fs vs rest h.1)

module _ (key : Field → Text) where
  optargs_of-absent :
      (n : Text) (fs : List Field) (gs : List Optional)
      → occurs n (map python_name fs) ≡ false
      → lookup n (optargs_of fs gs) ≡ none
  unfolding lookup
  optargs_of-absent n [] gs h = refl
  optargs_of-absent n (f ∷ fs) [] h = refl
  optargs_of-absent n (f ∷ fs) (none ∷ gs) h = optargs_of-absent n fs gs (ground arith)
  optargs_of-absent n (f ∷ fs) (some o ∷ gs) h = ground (arith, optargs_of-absent n fs gs)

  put_opts-skip :
      (f : Field) (fs : List Field) (optargs : Dict Text (Option Pulled)) (msg : Message)
      → lookup (key f) optargs ≡ none
      → put_opts key (f ∷ fs) optargs msg ≡ put_opts key fs optargs msg
  unfolding put_opts
  put_opts-skip f fs optargs msg e = ground arith

  put_opts-given :
      (f : Field) (fs : List Field) (o : Option Pulled) (optargs rest : Dict Text (Option Pulled))
      (msg : Message)
      → lookup (key f) optargs ≡ some o
      → lookup (python_name f) optargs ≡ some o
      → erase (key f) optargs ≡ rest
      → put_opts key (f ∷ fs) optargs msg ≡ put_opts key fs rest (put_optional f (some o) msg)
  unfolding put_opts
  put_opts-given f fs o optargs rest msg e e' gone = ground arith

  put_opts-step :
      (f : Field) (fs : List Field) (o : Option Pulled) (optargs : Dict Text (Option Pulled))
      (msg : Message)
      → key f ≡ python_name f
      → put_opts key (f ∷ fs) ((python_name f, o) ∷ optargs) msg
        ≡ put_opts key fs optargs (put_optional f (some o) msg)
  put_opts-step f fs o optargs msg e =
      put_opts-given f fs o ((python_name f, o) ∷ optargs) optargs msg
        (ap (λ n. lookup n ((python_name f, o) ∷ optargs)) e
          ∙ lookup-front (python_name f) o optargs)
        (lookup-front (python_name f) o optargs)
        (ap (λ n. erase n ((python_name f, o) ∷ optargs)) e ∙ erase-front (python_name f) o optargs)

  abbrev pub AreNamed : List Field → Type 0
  AreNamed [] = Unit
  AreNamed (f ∷ fs) = (key f ≡ python_name f) × AreNamed fs

  pub put_opts-entries :
      (fs : List Field) (gs : List Optional) (msg : Message)
      → AreNamed fs
      → AreOptional fs gs
      → apart (map python_name fs) ≡ true
      → apart (all_keys msg ++ names fs) ≡ true
      → put_opts key fs (optargs_of fs gs) msg ≡ (msg ++ opt_entries fs gs, [])
  unfolding put_opts
  put_opts-entries [] [] msg k h p d = ap (λ m. (m, [])) (sym (append-nil msg))
  put_opts-entries [] (g ∷ gs) msg k h p d = absurd h
  put_opts-entries (f ∷ fs) [] msg k h p d = absurd h
  put_opts-entries (f ∷ fs) (none ∷ gs) msg k h p d =
      put_opts-skip f fs (optargs_of fs gs) msg (
        ap (λ n. lookup n (optargs_of fs gs)) k.0
        ∙ optargs_of-absent (python_name f) fs gs
            (apart-head (python_name f) (map python_name fs) p))
      ∙ put_opts-entries fs gs msg k.1 h (apart-rest (python_name f ∷ []) (map python_name fs) p)
          (apart-drop f.name (all_keys msg) (names fs) d)
  put_opts-entries (f ∷ fs) (some none ∷ gs) msg k h p d =
      put_opts-step f fs none (optargs_of fs gs) msg k.0
      ∙ put_opts-entries fs gs msg k.1 h (apart-rest (python_name f ∷ []) (map python_name fs) p)
          (apart-drop f.name (all_keys msg) (names fs) d)
  put_opts-entries (f ∷ fs) (some (some v) ∷ gs) msg k h p d =
      put_opts-step f fs (some v) (optargs_of fs gs) msg k.0
      ∙ ap (put_opts key fs (optargs_of fs gs)) (put-append f v msg (names fs) d)
      ∙ put_opts-entries fs gs (msg ++ (f.name, wire v) ∷ []) k.1 h.1
          (apart-rest (python_name f ∷ []) (map python_name fs) p)
          (grown-apart f.name (wire v) msg (names fs) d)
      ∙ ap (λ m. (m, [])) (append_assoc msg ((f.name, wire v) ∷ []) (opt_entries fs gs))

  opt_entries-absent :
      (n : Text) (fs : List Field) (gs : List Optional)
      → occurs n (names fs) ≡ false
      → lookup n (opt_entries fs gs) ≡ none
  unfolding lookup
  opt_entries-absent n [] gs h = refl
  opt_entries-absent n (f ∷ fs) [] h = refl
  opt_entries-absent n (f ∷ fs) (none ∷ gs) h = opt_entries-absent n fs gs (ground arith)
  opt_entries-absent n (f ∷ fs) (some none ∷ gs) h = opt_entries-absent n fs gs (ground arith)
  opt_entries-absent n (f ∷ fs) (some (some v) ∷ gs) h = ground (arith, opt_entries-absent n fs gs)

  pull_opts-step :
      (f : Field) (fs : List Field) (o : Option Pulled) (acc : Dict Text Pulled)
      (msg rest : Message)
      → pull f true msg ≡ some (o, rest)
      → pull_opts key (f ∷ fs) acc msg ≡ pull_opts key fs (with_optarg (key f) o acc) rest
  unfolding pull_opts
  pull_opts-step f fs o acc msg rest e = ground arith

  pull_opts-skip :
      (f : Field) (fs : List Field) (gs : List Optional) (acc : Dict Text Pulled)
      → apart (names (f ∷ fs)) ≡ true
      → pull_opts key (f ∷ fs) acc (opt_entries fs gs) ≡ pull_opts key fs acc (opt_entries fs gs)
  pull_opts-skip f fs gs acc p =
      pull_opts-step f fs none acc (opt_entries fs gs) (opt_entries fs gs) (
        pull-absent f (opt_entries fs gs)
          (opt_entries-absent f.name fs gs (apart-head f.name (names fs) p)))

  pub pull_opts-entries :
      (fs : List Field) (gs : List Optional) (acc : Dict Text Pulled)
      → AreOptional fs gs
      → apart (names fs) ≡ true
      → apart (all_keys acc ++ map key fs) ≡ true
      → pull_opts key fs acc (opt_entries fs gs) ≡ some (acc ++ received key fs gs, [])
  unfolding pull_opts
  pull_opts-entries [] [] acc h p d = ap (λ a. some (a, [])) (sym (append-nil acc))
  pull_opts-entries [] (g ∷ gs) acc h p d = absurd h
  pull_opts-entries (f ∷ fs) [] acc h p d = absurd h
  pull_opts-entries (f ∷ fs) (none ∷ gs) acc h p d =
      pull_opts-skip f fs gs acc p
      ∙ pull_opts-entries fs gs acc h (apart-rest (f.name ∷ []) (names fs) p)
          (apart-drop (key f) (all_keys acc) (map key fs) d)
  pull_opts-entries (f ∷ fs) (some none ∷ gs) acc h p d =
      pull_opts-skip f fs gs acc p
      ∙ pull_opts-entries fs gs acc h (apart-rest (f.name ∷ []) (names fs) p)
          (apart-drop (key f) (all_keys acc) (map key fs) d)
  pull_opts-entries (f ∷ fs) (some (some v) ∷ gs) acc h p d =
      pull_opts-step f fs (some v) acc ((f.name, wire v) ∷ opt_entries fs gs) (opt_entries fs gs)
        (pull-front f v (opt_entries fs gs) true h.0)
      ∙ ap (λ a. pull_opts key fs a (opt_entries fs gs))
          (insert_new (key f) v acc
            (lookup-absent (key f) acc (apart-before (key f) (all_keys acc) (map key fs) d)))
      ∙ pull_opts-entries fs gs (acc ++ (key f, v) ∷ []) h.1 (apart-rest (f.name ∷ []) (names fs) p)
          (grown-apart (key f) v acc (map key fs) d)
      ∙ ap (λ a. some (a, [])) (append_assoc acc ((key f, v) ∷ []) (received key fs gs))
