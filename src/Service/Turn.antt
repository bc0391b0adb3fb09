-- ===== src/Service/Turn.antt =====
-- What one turn of the loop over the groups of src/service.cc leaves for the next.
use finger_move.Base.{
  All, All-both, All-imp, All-remap, List, Option, [], false, if_neg, subst, sym, true, ℤ, ◌∙◌, ◌∷◌,
  ◌≡◌, ◌≢◌,
}
use finger_move.Clib.{Bytes, Bytes-discrete}
use finger_move.Prodeal.Move.Chosen.{Chosen, after_moves, after_moves-other}
use finger_move.Prodeal.Move.Clear.{CanClear}
use finger_move.Prodeal.Move.Delivery.{CanDeliver, delivered}
use finger_move.Prodeal.Move.Listing.{names_of}
use finger_move.Prodeal.Move.Rename.{CanMove}
use finger_move.Prodeal.Names.{bot_afps_file}
use finger_move.Rpc.{Call, Peers}
use finger_move.Service.Parts.{CanTell}
use finger_move.Service.Shares.{CanGive, CanVisit, Group, HasList, Visit, accepted, part, refused}
use finger_move.World.{World}
use finger_move.World.Effects.{writable-loose}
use finger_move.World.Files.{FilePath, FileTable, lookup, names_in, path, same_path-elsewhere}

delivered-elsewhere :
    (afp org : Bytes) (fs : Chosen) (q : FilePath) (old : Option Bytes)
    → afp ≢ q.dir
    → org ≢ q.dir
    → delivered afp org fs q old ≡ old
unfolding after_moves
delivered-elsewhere afp org [] q old h k = rw (if_neg (Bytes-discrete org q.dir) k true false)
delivered-elsewhere afp org (e ∷ fs) q old h k =
    rw (same_path-elsewhere org e.0 q k)
      (rw (same_path-elsewhere afp e.0 q h) (delivered-elsewhere afp org fs q old h k))

delivered-other :
    (afp org : Bytes) (fs : Chosen) (n : Bytes) (old : Option Bytes)
    → org ≢ afp
    → All (λ (e : Bytes × Bytes). e.0 ≢ n) fs
    → delivered afp org fs (path afp n) old ≡ old
delivered-other afp org fs n old h apart =
    after_moves-other afp org fs (path afp n) _ apart
    ∙ rw (if_neg (Bytes-discrete org afp) h true false)

-- When a group has got its part.
module _ (peers : Peers) (thr : ℤ) (w : World) (fs : Chosen) (ts : FileTable) (c : List Call)
    (l : List Bytes) where
  abbrev afp : Bytes
  afp = w.config.afp_dir

  abbrev org : Bytes
  org = w.config.org_dir

  abbrev next : World
  next = record w { files = ts; sent = c; logged = l }

  pub HasList-next :
      (listed : List Bytes) (host : Bytes)
      → ((q : FilePath) → lookup q ts ≡ delivered afp org fs q (lookup q w.files))
      → names_in org ts ≡ names_of fs
      → All (CanMove afp org w) fs
      → All (CanTell host w) fs
      → HasList afp org w.config.wrk_dir listed w
      → HasList afp org w.config.wrk_dir listed next
  HasList-next listed host left found can tell h = record {
    dir = h.dir;
    clear = subst (All (CanClear org next)) (sym found) (
        All-remap (CanClear org next) (λ e. e.0) fs
          (All-imp
            (λ e x. record {
              entry = x.1.entry;
              plain = x.0.plain;
              fits = x.0.fits;
              loose = writable-loose (path org e.0) w x.0.free;
            })
            fs (All-both _ _ fs can tell)));
    org_afp = h.org_afp;
    org_wrk = h.org_wrk;
    afp_wrk = h.afp_wrk;
    holds = record {
      fits = h.holds.fits;
      loose = h.holds.loose;
      there =
          left (path w.config.wrk_dir bot_afps_file)
          ∙ delivered-elsewhere afp org fs _ _ h.afp_wrk h.org_wrk
          ∙ h.holds.there;
    };
    texts = h.texts;
  }

  pub CanGive-next :
      (g : Group)
      → org ≢ afp
      → ((q : FilePath) → lookup q ts ≡ delivered afp org fs q (lookup q w.files))
      → All (λ (f : Bytes × Bytes). All (λ (e : Bytes × Bytes). e.0 ≢ f.0) fs) g.files
      → CanGive peers thr afp org w g
      → CanGive peers thr afp org next g
  CanGive-next g differ left apart h = record {
    conf_word = h.conf_word;
    move_word = h.move_word;
    accepts = h.accepts;
    host_is = h.host_is;
    tell =
        All-imp
          (λ e x. record { entry = x.entry; size = x.size; line = x.line; sub_lines = x.sub_lines })
          g.files h.tell;
    can =
        All-imp
          (λ e x. record {
            plain = x.0.plain;
            fits = x.0.fits;
            holds = record {
              fits = x.0.holds.fits;
              loose = x.0.holds.loose;
              there =
                  left (path afp e.0)
                  ∙ delivered-other afp org fs e.0 _ differ x.1
                  ∙ x.0.holds.there;
            };
            free = x.0.free;
          })
          g.files (All-both _ _ g.files h.can apart);
    distinct = h.distinct;
  }

  pub CanVisit-next :
      (v : Visit)
      → org ≢ afp
      → ((q : FilePath) → lookup q ts ≡ delivered afp org fs q (lookup q w.files))
      → All (λ (f : Bytes × Bytes). All (λ (e : Bytes × Bytes). e.0 ≢ f.0) fs) (part v)
      → CanVisit peers thr afp org w v
      → CanVisit peers thr afp org next v
  CanVisit-next (accepted g) differ left apart h = CanGive-next g differ left apart h
  CanVisit-next (refused conf move) differ left apart h = h

-- When a group has refused.
module _ (peers : Peers) (thr : ℤ) (afp org wrk : Bytes) (w : World) (c : List Call)
    (l : List Bytes) where
  abbrev asked : World
  asked = record w { sent = c; logged = l }

  pub HasList-asked :
      (listed : List Bytes) → HasList afp org wrk listed w → HasList afp org wrk listed asked
  HasList-asked listed h = record {
    dir = h.dir;
    clear =
        All-imp (λ n x. record { entry = x.entry; plain = x.plain; fits = x.fits; loose = x.loose })
          (names_in org w.files) h.clear;
    org_afp = h.org_afp;
    org_wrk = h.org_wrk;
    afp_wrk = h.afp_wrk;
    holds = record { fits = h.holds.fits; loose = h.holds.loose; there = h.holds.there };
    texts = h.texts;
  }

  pub CanVisit-asked :
      (v : Visit) → CanVisit peers thr afp org w v → CanVisit peers thr afp org asked v
  CanVisit-asked (refused conf move) h = h
  CanVisit-asked (accepted g) h = record {
    conf_word = h.conf_word;
    move_word = h.move_word;
    accepts = h.accepts;
    host_is = h.host_is;
    tell =
        All-imp
          (λ e x. record { entry = x.entry; size = x.size; line = x.line; sub_lines = x.sub_lines })
          g.files h.tell;
    can =
        All-imp
          (λ e x. record {
            plain = x.plain;
            fits = x.fits;
            holds = record { fits = x.holds.fits; loose = x.holds.loose; there = x.holds.there };
            free = x.free;
          })
          g.files h.can;
    distinct = h.distinct;
  }

pub CanDeliver-part :
    (peers : Peers) (thr : ℤ) (listed : List Bytes) (g : Group) (w : World)
    → let c = w.config in
      HasList c.afp_dir c.org_dir c.wrk_dir listed w
      → CanGive peers thr c.afp_dir c.org_dir w g
      → CanDeliver c.afp_dir c.org_dir c.wrk_dir bot_afps_file listed g.files w
CanDeliver-part peers thr listed g w h k = record {
  takes = record {
    dir = h.dir;
    clear = h.clear;
    apart = h.org_afp;
    distinct = k.distinct;
    can = k.can;
  };
  aside = h.org_wrk;
  holds = h.holds;
  texts = h.texts;
}
