-- ===== src/Gui/Offers.antt =====
-- Answers to offers on the macOS client.
use local_chat_xxx.Common.Bytes.{Avoids, Bytes}
use local_chat_xxx.Common.{Bool, [], arith, false, refl, some, ℕ, ◌++◌, ◌∷◌, ◌≡◌}
use local_chat_xxx.Client.Defs.{after_bar, or_all}
use local_chat_xxx.Client.Assembly.{after_bar_lem, before_bar_lem}
use local_chat_xxx.Common.Assoc.{
  bytes_eq, insert, lookup, lookup-erase_self, lookup-insert_self, nat_eq,
}
use local_chat_xxx.Wire.Defs.{FileData, until_nul}
use local_chat_xxx.Gui.Actions.{respond, respond_to_offer}
use local_chat_xxx.Gui.Defs.{FileOffer, Gui, file_offered, gui_file_offer, gui_sender, notify}
use local_chat_xxx.Manager.Defs.{respond_to_file_offer}
use local_chat_xxx.Session.Defs.{is_null}

-- The text of an offer as its sender writes it: its name, a bar, the file's name.
abbrev pub offered_by : ℕ → Bytes → Bytes → ℕ → FileData
offered_by key sender fname size = record {
  correlation_key = key;
  csize = 0;
  fsize = size;
  fdata = sender ++ (b'|' ∷ fname);
}

-- The sender's name is not empty and has neither a bar nor a NUL, and the file's name no NUL.
pub record IsNamed (sender fname : Bytes) : Type 0 where
  pub given : is_null sender ≡ false
  pub no_bar : Avoids 124 sender
  pub clean : Avoids 0 (sender ++ (b'|' ∷ fname))

until_nul_clean : (bs : Bytes) → Avoids 0 bs → until_nul bs ≡ bs
unfolding until_nul
until_nul_clean [] h = refl
until_nul_clean (b ∷ bs) h = ground (arith, until_nul_clean bs)

abbrev pub shown_offer : ℕ → Bytes → Bytes → ℕ → FileOffer
shown_offer key sender fname size = record {
  correlation_key = key;
  file_name = fname;
  sender = sender;
  size = size;
}

-- What an offer adds.
abbrev noted : ℕ → Bytes → Bytes → ℕ → Gui → Gui
noted key sender fname size g = record g {
  pending_offers = g.pending_offers ++ (shown_offer key sender fname size ∷ []);
  offer_senders = insert key sender g.offer_senders;
  notified = g.notified ++ (file_offered ∷ []);
}

offer_noted :
    (key : ℕ) (sender fname : Bytes) (size : ℕ) (g : Gui)
    → IsNamed sender fname
    → (gui_file_offer (offered_by key sender fname size) g).0 ≡ noted key sender fname size g
unfolding gui_file_offer notify after_bar or_all gui_sender
offer_noted key sender fname size g n =
    rw (until_nul_clean (sender ++ (b'|' ∷ fname)) n.clean)
      (rw (after_bar_lem sender fname n.no_bar) (rw (before_bar_lem sender fname n.no_bar) refl))

-- The answer to a key whose last offer came from this sender, and a further one.
answered :
    (now : ℕ) (key : ℕ) (sender : Bytes) (verdict : Bool) (g : Gui)
    → is_null sender ≡ false
    → lookup key g.offer_senders ≡ some sender
    → ((respond_to_offer now key verdict g).app.manager
        ≡ respond_to_file_offer now sender key verdict (g.app).manager)
      × ((then' : ℕ) (other : Bool)
          → respond_to_offer then' key other (respond_to_offer now key verdict g)
            ≡ respond_to_offer now key verdict g)
unfolding respond_to_offer respond
answered now key sender verdict g n e =
    rw e (rw n (refl, λ t o. rw (lookup-erase_self key g.offer_senders) refl))

-- A peer's offer, with names as `IsNamed` says, is listed for the user; the user's answer to its key
-- is sent to that peer, and any further answer to the key changes nothing.
pub gui_offer_answered_once :
    (now key : ℕ) (sender fname : Bytes) (size : ℕ) (verdict : Bool) (g : Gui)
    → IsNamed sender fname
    → let asked = (gui_file_offer (offered_by key sender fname size) g).0 in
      let done = respond_to_offer now key verdict asked in
      (asked.pending_offers ≡ g.pending_offers ++ (shown_offer key sender fname size ∷ []))
      × ((done.app).manager ≡ respond_to_file_offer now sender key verdict (g.app).manager)
      × ((then' : ℕ) (other : Bool) → respond_to_offer then' key other done ≡ done)
gui_offer_answered_once now key sender fname size verdict g n =
    let a =
      answered now key sender verdict (noted key sender fname size g) n.given
        (lookup-insert_self key sender g.offer_senders) in
    rw (offer_noted key sender fname size g n) (refl, a.0, a.1)

-- Two peers offer files under the same key, and both offers are listed for the user. One answer to
-- the key is sent to the second peer, and no further answer to it does anything, so the first peer
-- is never answered.
pub same_key_answers_last :
    (now key : ℕ) (first second fname other : Bytes) (size more : ℕ) (verdict : Bool) (g : Gui)
    → IsNamed first fname
    → IsNamed second other
    → let one = (gui_file_offer (offered_by key first fname size) g).0 in
      let both = (gui_file_offer (offered_by key second other more) one).0 in
      let done = respond_to_offer now key verdict both in
      (both.pending_offers
        ≡ (g.pending_offers ++ (shown_offer key first fname size ∷ []))
          ++ (shown_offer key second other more ∷ []))
      × ((done.app).manager ≡ respond_to_file_offer now second key verdict (g.app).manager)
      × ((then' : ℕ) (again : Bool) → respond_to_offer then' key again done ≡ done)
same_key_answers_last now key first second fname other size more verdict g n k =
    rw (offer_noted key first fname size g n)
      (gui_offer_answered_once now key second other more verdict (noted key first fname size g) k)
