-- ===== src/Client/Notices.antt =====
-- Notifications call back, and leave the mail, the pending requests and the stream as they are.
use ohmcp.Client.State.{progressed, OhmcpClient, Notice, ClientOutside}
use ohmcp.Base.Maps.{contains}
use ohmcp.Client.Receive.{call_progress, noticed, call_updated}
use ohmcp.Core.Message.{ProgressParams, ResourceUpdatedParams}
use ohmcp.Base.{some, none, Option, false, true, Bool, refl, ◌≡◌, ℕ, if◌then◌else◌}
use ohmcp.Base.Equality.{nat_eq}
use ohmcp.Client.State

-- Notices change neither the mail nor what is pending or waits, nor what is still to come.
abbrev pub Untouched : OhmcpClient → OhmcpClient → Type 0
Untouched c d =
    (d.pending ≡ c.pending)
    × (d.mailbox ≡ c.mailbox)
    × (d.incoming ≡ c.incoming)
    × (d.receivers ≡ c.receivers)

pub noticed_if_Untouched :
    (b : Bool) (n : Notice) (c : OhmcpClient) → Untouched c (if b then noticed n c else c)
noticed_if_Untouched true n c = (refl, refl, refl, refl)
noticed_if_Untouched false n c = (refl, refl, refl, refl)

module _ {Value : Type 0} (out : ClientOutside Value) (now : ℕ) where
  pub call_progress-Untouched :
      (o : Option ProgressParams) (c : OhmcpClient) → Untouched c (call_progress out now o c)
  call_progress-Untouched none c = (refl, refl, refl, refl)
  call_progress-Untouched (some p) c =
      noticed_if_Untouched (contains p.request_id c.progress) (progressed p) c

  pub call_updated-Untouched :
      (o : Option ResourceUpdatedParams) (c : OhmcpClient) → Untouched c (call_updated out now o c)
  call_updated-Untouched none c = (refl, refl, refl, refl)
  call_updated-Untouched (some p) c =
      noticed_if_Untouched c.on_updated (State.resource_updated p.uri) c
