-- ===== src/Client/Multiplex.antt =====
-- Requests that share one connection: each gets its own response, and none is lost to another.
use ohmcp.Base.{subst, ℕ, ◌≡◌, ◌≢◌, ap, ◌∙◌, List, [], ◌++◌, Option, none, some, Result, ok}
use ohmcp.Base.Equality.{nat_eq}
use ohmcp.Base.Maps.{lookup}
use ohmcp.Core.Frame.{Frame}
use ohmcp.Client.State.{Incoming, OhmcpClient, ClientError, ClientOutside}
use ohmcp.Client.Receive.{recv_response, recv_loop, take_mail, gives_up, close}
use ohmcp.Client.Mail.{Plain, first_for, Awaits, close-Awaits}
use ohmcp.Client.Routing.{recv_loop-Heard}

module _ {Value : Type 0} (out : ClientOutside Value) (now : ℕ) where
  module _ (id j : ℕ) (other : j ≢ id) where
    heard_mail :
        (mail : Option Frame) (c : OhmcpClient) (g : Frame) (c' : OhmcpClient)
        → Plain c.incoming
        → Awaits j c none
        → take_mail out now id mail c ≡ (ok g, c')
        → (consumed : List Incoming) × (c.incoming ≡ consumed ++ c'.incoming)
          × Awaits j c' (first_for j consumed)
    heard_mail none c g c' p w h = recv_loop-Heard out now id j other c.incoming c none g c' p w h
    heard_mail (some f) c g c' p w h =
        let same = ap (λ (r : Result ClientError Frame × OhmcpClient). r.1) h in
        (
          [],
          ap (λ (x : OhmcpClient). x.incoming) same,
          subst (λ (x : OhmcpClient). Awaits j x none) same w,
        )

    -- What a request comes to that has this in its channel, or nothing.
    abbrev pub Gets : Option Frame → OhmcpClient → Type 0
    Gets none c = recv_response out now j c ≡ gives_up j (recv_loop out now j c.incoming c)
    Gets (some f) c = recv_response out now j c ≡ (ok f, close j c)

    Awaits-Gets : (c : OhmcpClient) (o : Option Frame) → Awaits j c o → Gets o c
    unfolding recv_response
    Awaits-Gets c none w = ap (λ o. gives_up j (take_mail out now j o c)) w.1
    Awaits-Gets c (some f) w = ap (λ o. gives_up j (take_mail out now j o c)) w.1

    -- While one request waits for its response, the first response to another that it reads on the
    -- way is what the other gets, without reading the stream; and if it reads none, the other reads
    -- on where the stream stands. No frame is a reference to shared memory.
    pub recv_response-recv_response :
        (c : OhmcpClient) (g : Frame) (c' : OhmcpClient)
        → Plain c.incoming
        → Awaits j c none
        → recv_response out now id c ≡ (ok g, c')
        → (consumed : List Incoming) × (c.incoming ≡ consumed ++ c'.incoming)
          × Gets (first_for j consumed) c'
    unfolding recv_response
    recv_response-recv_response c g c' p w h =
        let r = take_mail out now id (lookup id c.mailbox) c in
        let result : r.0 ≡ ok g = ap (λ (x : Result ClientError Frame × OhmcpClient). x.0) h in
        let ended : close id r.1 ≡ c' =
          ap (λ (x : Result ClientError Frame × OhmcpClient). x.1) h in
        let (consumed, split, heard) =
          heard_mail (lookup id c.mailbox) c g r.1 p w (ap (λ a. (a, r.1)) result) in
        (
          consumed,
          split ∙ ap (λ (x : OhmcpClient). consumed ++ x.incoming) ended,
          Awaits-Gets c' (first_for j consumed) (
              subst (λ (x : OhmcpClient). Awaits j x (first_for j consumed)) ended
                (close-Awaits id j r.1 (first_for j consumed) other heard)),
        )
