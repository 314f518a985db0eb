-- ===== src/Agent/Tests.antt =====
-- src/agent.c at concrete inputs.
use x11spice.Prelude.{◌≡◌, refl, true, false, some, codes}
use x11spice.Prelude.Int.{pos}
use x11spice.Options.{Options, options_init}
use x11spice.Agent.{Agent, StartAnswers, agent_start, agent_stop, on_accept, stop_virtio}
use x11spice.Agent.Balance.{IsBalanced, one, opens, closes, agent_stop-closes_all}
use x11spice.Agent.Balance.Start.{agent_start-IsBalanced, on_accept-IsBalanced}

abbrev answers : StartAnswers
answers = record { socket = pos 7; bind = true; listen = true; mkfifo = true; uinput = pos 8 }

abbrev options : Options
options = record options_init {
  virtio_path = some (codes "agent.socket");
  uinput_path = some (codes "uinput");
}

abbrev started : Agent
started = (agent_start answers options).1

started-IsBalanced : IsBalanced started
unfolding agent_start options_init
started-IsBalanced = agent_start-IsBalanced answers options refl

agent_start-IsBalanced_example :
    IsBalanced (agent_start (record answers { bind = false }) options).1
unfolding agent_start options_init
agent_start-IsBalanced_example =
    agent_start-IsBalanced (record answers { bind = false }) options refl

abbrev connected : Agent
connected = on_accept (pos 9) true true (pos 7) started

connected-IsBalanced : IsBalanced connected
unfolding agent_start options_init
connected-IsBalanced = on_accept-IsBalanced (pos 9) (pos 7) started refl started-IsBalanced

agent_stop-closes_all_example :
    opens (pos 9) (agent_stop connected).calls ≡ closes (pos 9) (agent_stop connected).calls
agent_stop-closes_all_example = agent_stop-closes_all connected (pos 9) connected-IsBalanced

-- Descriptor 7 is closed twice, and descriptor 6 is not the agent's.
closes_of_both :
    (closes (pos 7) (stop_virtio (stop_virtio connected)).calls ≡ 2)
    × (closes (pos 6) (stop_virtio (stop_virtio connected)).calls ≡ 1)
unfolding stop_virtio on_accept agent_start options_init one
closes_of_both = (refl, refl)
