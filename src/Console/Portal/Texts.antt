-- ===== src/Console/Portal/Texts.antt =====
-- The texts of AetherWebOS/src/kernel/portal.c, as characters.
use aether_webos.Prelude.{ℕ, List, [], ◌∷◌}

-- "\033[2J\033[H"
abbrev pub clear_text : List ℕ
clear_text = 27 ∷ 91 ∷ 50 ∷ 74 ∷ 27 ∷ 91 ∷ 72 ∷ []

-- "\033[H"
abbrev pub home_text : List ℕ
home_text = 27 ∷ 91 ∷ 72 ∷ []

-- "#################################################\n"
abbrev pub frame_text : List ℕ
frame_text =
    35 ∷ 35 ∷ 35 ∷ 35 ∷ 35 ∷ 35 ∷ 35 ∷ 35 ∷ 35 ∷ 35 ∷ 35 ∷ 35 ∷ 35 ∷ 35 ∷ 35 ∷ 35 ∷ 35 ∷ 35 ∷ 35
    ∷ 35 ∷ 35 ∷ 35 ∷ 35 ∷ 35 ∷ 35 ∷ 35 ∷ 35 ∷ 35 ∷ 35 ∷ 35 ∷ 35 ∷ 35 ∷ 35 ∷ 35 ∷ 35 ∷ 35 ∷ 35 ∷ 35
    ∷ 35 ∷ 35 ∷ 35 ∷ 35 ∷ 35 ∷ 35 ∷ 35 ∷ 35 ∷ 35 ∷ 35 ∷ 35 ∷ 10 ∷ []

-- "#           AETHER NETWORK DASHBOARD            #\n"
abbrev pub title_text : List ℕ
title_text =
    35 ∷ 32 ∷ 32 ∷ 32 ∷ 32 ∷ 32 ∷ 32 ∷ 32 ∷ 32 ∷ 32 ∷ 32 ∷ 32 ∷ 65 ∷ 69 ∷ 84 ∷ 72 ∷ 69 ∷ 82 ∷ 32
    ∷ 78 ∷ 69 ∷ 84 ∷ 87 ∷ 79 ∷ 82 ∷ 75 ∷ 32 ∷ 68 ∷ 65 ∷ 83 ∷ 72 ∷ 66 ∷ 79 ∷ 65 ∷ 82 ∷ 68 ∷ 32 ∷ 32
    ∷ 32 ∷ 32 ∷ 32 ∷ 32 ∷ 32 ∷ 32 ∷ 32 ∷ 32 ∷ 32 ∷ 32 ∷ 35 ∷ 10 ∷ []

-- "#################################################\n\n"
abbrev pub frame_end_text : List ℕ
frame_end_text =
    35 ∷ 35 ∷ 35 ∷ 35 ∷ 35 ∷ 35 ∷ 35 ∷ 35 ∷ 35 ∷ 35 ∷ 35 ∷ 35 ∷ 35 ∷ 35 ∷ 35 ∷ 35 ∷ 35 ∷ 35 ∷ 35
    ∷ 35 ∷ 35 ∷ 35 ∷ 35 ∷ 35 ∷ 35 ∷ 35 ∷ 35 ∷ 35 ∷ 35 ∷ 35 ∷ 35 ∷ 35 ∷ 35 ∷ 35 ∷ 35 ∷ 35 ∷ 35 ∷ 35
    ∷ 35 ∷ 35 ∷ 35 ∷ 35 ∷ 35 ∷ 35 ∷ 35 ∷ 35 ∷ 35 ∷ 35 ∷ 35 ∷ 10 ∷ 10 ∷ []

-- "[LINK LAYER]\n"
abbrev pub link_text : List ℕ
link_text = 91 ∷ 76 ∷ 73 ∷ 78 ∷ 75 ∷ 32 ∷ 76 ∷ 65 ∷ 89 ∷ 69 ∷ 82 ∷ 93 ∷ 10 ∷ []

-- " - Interface: eth0 (VirtIO-Net-PCI)\n"
abbrev pub interface_text : List ℕ
interface_text =
    32 ∷ 45 ∷ 32 ∷ 73 ∷ 110 ∷ 116 ∷ 101 ∷ 114 ∷ 102 ∷ 97 ∷ 99 ∷ 101 ∷ 58 ∷ 32 ∷ 101 ∷ 116 ∷ 104 ∷ 48
    ∷ 32 ∷ 40 ∷ 86 ∷ 105 ∷ 114 ∷ 116 ∷ 73 ∷ 79 ∷ 45 ∷ 78 ∷ 101 ∷ 116 ∷ 45 ∷ 80 ∷ 67 ∷ 73 ∷ 41 ∷ 10
    ∷ []

-- " - Status:    "
abbrev pub status_text : List ℕ
status_text = 32 ∷ 45 ∷ 32 ∷ 83 ∷ 116 ∷ 97 ∷ 116 ∷ 117 ∷ 115 ∷ 58 ∷ 32 ∷ 32 ∷ 32 ∷ 32 ∷ []

-- "UP\n"
abbrev pub up_text : List ℕ
up_text = 85 ∷ 80 ∷ 10 ∷ []

-- "DOWN\n"
abbrev pub down_text : List ℕ
down_text = 68 ∷ 79 ∷ 87 ∷ 78 ∷ 10 ∷ []

-- " - MAC:       "
abbrev pub mac_label : List ℕ
mac_label = 32 ∷ 45 ∷ 32 ∷ 77 ∷ 65 ∷ 67 ∷ 58 ∷ 32 ∷ 32 ∷ 32 ∷ 32 ∷ 32 ∷ 32 ∷ 32 ∷ []

-- "[NETWORK LAYER]\n"
abbrev pub network_text : List ℕ
network_text = 91 ∷ 78 ∷ 69 ∷ 84 ∷ 87 ∷ 79 ∷ 82 ∷ 75 ∷ 32 ∷ 76 ∷ 65 ∷ 89 ∷ 69 ∷ 82 ∷ 93 ∷ 10 ∷ []

-- " - IPv4 Addr: "
abbrev pub ipv4_label : List ℕ
ipv4_label = 32 ∷ 45 ∷ 32 ∷ 73 ∷ 80 ∷ 118 ∷ 52 ∷ 32 ∷ 65 ∷ 100 ∷ 100 ∷ 114 ∷ 58 ∷ 32 ∷ []

-- " - IPv6 Addr: "
abbrev pub ipv6_label : List ℕ
ipv6_label = 32 ∷ 45 ∷ 32 ∷ 73 ∷ 80 ∷ 118 ∷ 54 ∷ 32 ∷ 65 ∷ 100 ∷ 100 ∷ 114 ∷ 58 ∷ 32 ∷ []

-- "[TRAFFIC STATS]\n"
abbrev pub traffic_text : List ℕ
traffic_text = 91 ∷ 84 ∷ 82 ∷ 65 ∷ 70 ∷ 70 ∷ 73 ∷ 67 ∷ 32 ∷ 83 ∷ 84 ∷ 65 ∷ 84 ∷ 83 ∷ 93 ∷ 10 ∷ []

-- " - RX Frames:        "
abbrev pub rx_label : List ℕ
rx_label =
    32 ∷ 45 ∷ 32 ∷ 82 ∷ 88 ∷ 32 ∷ 70 ∷ 114 ∷ 97 ∷ 109 ∷ 101 ∷ 115 ∷ 58 ∷ 32 ∷ 32 ∷ 32 ∷ 32 ∷ 32 ∷ 32
    ∷ 32 ∷ 32 ∷ []

-- " - TX Frames:        "
abbrev pub tx_label : List ℕ
tx_label =
    32 ∷ 45 ∷ 32 ∷ 84 ∷ 88 ∷ 32 ∷ 70 ∷ 114 ∷ 97 ∷ 109 ∷ 101 ∷ 115 ∷ 58 ∷ 32 ∷ 32 ∷ 32 ∷ 32 ∷ 32 ∷ 32
    ∷ 32 ∷ 32 ∷ []

-- " - Collisions/Drops: "
abbrev pub drop_label : List ℕ
drop_label =
    32 ∷ 45 ∷ 32 ∷ 67 ∷ 111 ∷ 108 ∷ 108 ∷ 105 ∷ 115 ∷ 105 ∷ 111 ∷ 110 ∷ 115 ∷ 47 ∷ 68 ∷ 114 ∷ 111
    ∷ 112 ∷ 115 ∷ 58 ∷ 32 ∷ []

-- " - Mem Buffers:      "
abbrev pub buffer_label : List ℕ
buffer_label =
    32 ∷ 45 ∷ 32 ∷ 77 ∷ 101 ∷ 109 ∷ 32 ∷ 66 ∷ 117 ∷ 102 ∷ 102 ∷ 101 ∷ 114 ∷ 115 ∷ 58 ∷ 32 ∷ 32 ∷ 32
    ∷ 32 ∷ 32 ∷ 32 ∷ []

-- "[TRANSPORT LAYER]\n"
abbrev pub transport_text : List ℕ
transport_text =
    91 ∷ 84 ∷ 82 ∷ 65 ∷ 78 ∷ 83 ∷ 80 ∷ 79 ∷ 82 ∷ 84 ∷ 32 ∷ 76 ∷ 65 ∷ 89 ∷ 69 ∷ 82 ∷ 93 ∷ 10 ∷ []

-- " - TCP Listener: Port 80 (HTTP)\n"
abbrev pub listener_text : List ℕ
listener_text =
    32 ∷ 45 ∷ 32 ∷ 84 ∷ 67 ∷ 80 ∷ 32 ∷ 76 ∷ 105 ∷ 115 ∷ 116 ∷ 101 ∷ 110 ∷ 101 ∷ 114 ∷ 58 ∷ 32 ∷ 80
    ∷ 111 ∷ 114 ∷ 116 ∷ 32 ∷ 56 ∷ 48 ∷ 32 ∷ 40 ∷ 72 ∷ 84 ∷ 84 ∷ 80 ∷ 41 ∷ 10 ∷ []

-- " - Debug State: "
abbrev pub debug_text : List ℕ
debug_text =
    32 ∷ 45 ∷ 32 ∷ 68 ∷ 101 ∷ 98 ∷ 117 ∷ 103 ∷ 32 ∷ 83 ∷ 116 ∷ 97 ∷ 116 ∷ 101 ∷ 58 ∷ 32 ∷ []

-- " - Active Connections: "
abbrev pub active_label : List ℕ
active_label =
    32 ∷ 45 ∷ 32 ∷ 65 ∷ 99 ∷ 116 ∷ 105 ∷ 118 ∷ 101 ∷ 32 ∷ 67 ∷ 111 ∷ 110 ∷ 110 ∷ 101 ∷ 99 ∷ 116
    ∷ 105 ∷ 111 ∷ 110 ∷ 115 ∷ 58 ∷ 32 ∷ []

-- "\n-------------------------------------------------\n"
abbrev pub rule_text : List ℕ
rule_text =
    10 ∷ 45 ∷ 45 ∷ 45 ∷ 45 ∷ 45 ∷ 45 ∷ 45 ∷ 45 ∷ 45 ∷ 45 ∷ 45 ∷ 45 ∷ 45 ∷ 45 ∷ 45 ∷ 45 ∷ 45 ∷ 45
    ∷ 45 ∷ 45 ∷ 45 ∷ 45 ∷ 45 ∷ 45 ∷ 45 ∷ 45 ∷ 45 ∷ 45 ∷ 45 ∷ 45 ∷ 45 ∷ 45 ∷ 45 ∷ 45 ∷ 45 ∷ 45 ∷ 45
    ∷ 45 ∷ 45 ∷ 45 ∷ 45 ∷ 45 ∷ 45 ∷ 45 ∷ 45 ∷ 45 ∷ 45 ∷ 45 ∷ 45 ∷ 10 ∷ []

-- " [ESC] Main Portal  |  [ENTER] Refresh\n"
abbrev pub keys_text : List ℕ
keys_text =
    32 ∷ 91 ∷ 69 ∷ 83 ∷ 67 ∷ 93 ∷ 32 ∷ 77 ∷ 97 ∷ 105 ∷ 110 ∷ 32 ∷ 80 ∷ 111 ∷ 114 ∷ 116 ∷ 97 ∷ 108
    ∷ 32 ∷ 32 ∷ 124 ∷ 32 ∷ 32 ∷ 91 ∷ 69 ∷ 78 ∷ 84 ∷ 69 ∷ 82 ∷ 93 ∷ 32 ∷ 82 ∷ 101 ∷ 102 ∷ 114 ∷ 101
    ∷ 115 ∷ 104 ∷ 10 ∷ []

-- "===========================================\n"
abbrev pub double_text : List ℕ
double_text =
    61 ∷ 61 ∷ 61 ∷ 61 ∷ 61 ∷ 61 ∷ 61 ∷ 61 ∷ 61 ∷ 61 ∷ 61 ∷ 61 ∷ 61 ∷ 61 ∷ 61 ∷ 61 ∷ 61 ∷ 61 ∷ 61
    ∷ 61 ∷ 61 ∷ 61 ∷ 61 ∷ 61 ∷ 61 ∷ 61 ∷ 61 ∷ 61 ∷ 61 ∷ 61 ∷ 61 ∷ 61 ∷ 61 ∷ 61 ∷ 61 ∷ 61 ∷ 61 ∷ 61
    ∷ 61 ∷ 61 ∷ 61 ∷ 61 ∷ 61 ∷ 10 ∷ []

-- "         AETHER WebOS :: Portal            \n"
abbrev pub portal_text : List ℕ
portal_text =
    32 ∷ 32 ∷ 32 ∷ 32 ∷ 32 ∷ 32 ∷ 32 ∷ 32 ∷ 32 ∷ 65 ∷ 69 ∷ 84 ∷ 72 ∷ 69 ∷ 82 ∷ 32 ∷ 87 ∷ 101 ∷ 98
    ∷ 79 ∷ 83 ∷ 32 ∷ 58 ∷ 58 ∷ 32 ∷ 80 ∷ 111 ∷ 114 ∷ 116 ∷ 97 ∷ 108 ∷ 32 ∷ 32 ∷ 32 ∷ 32 ∷ 32 ∷ 32
    ∷ 32 ∷ 32 ∷ 32 ∷ 32 ∷ 32 ∷ 32 ∷ 10 ∷ []

-- "[STATUS]  System Online\n"
abbrev pub online_text : List ℕ
online_text =
    91 ∷ 83 ∷ 84 ∷ 65 ∷ 84 ∷ 85 ∷ 83 ∷ 93 ∷ 32 ∷ 32 ∷ 83 ∷ 121 ∷ 115 ∷ 116 ∷ 101 ∷ 109 ∷ 32 ∷ 79
    ∷ 110 ∷ 108 ∷ 105 ∷ 110 ∷ 101 ∷ 10 ∷ []

-- "[MEMORY]  Used: "
abbrev pub memory_label : List ℕ
memory_label = 91 ∷ 77 ∷ 69 ∷ 77 ∷ 79 ∷ 82 ∷ 89 ∷ 93 ∷ 32 ∷ 32 ∷ 85 ∷ 115 ∷ 101 ∷ 100 ∷ 58 ∷ 32 ∷ []

-- " KB\n"
abbrev pub kb_text : List ℕ
kb_text = 32 ∷ 75 ∷ 66 ∷ 10 ∷ []

-- "[NETWORK] "
abbrev pub link_label : List ℕ
link_label = 91 ∷ 78 ∷ 69 ∷ 84 ∷ 87 ∷ 79 ∷ 82 ∷ 75 ∷ 93 ∷ 32 ∷ []

-- "-------------------------------------------\n"
abbrev pub dashes_text : List ℕ
dashes_text =
    45 ∷ 45 ∷ 45 ∷ 45 ∷ 45 ∷ 45 ∷ 45 ∷ 45 ∷ 45 ∷ 45 ∷ 45 ∷ 45 ∷ 45 ∷ 45 ∷ 45 ∷ 45 ∷ 45 ∷ 45 ∷ 45
    ∷ 45 ∷ 45 ∷ 45 ∷ 45 ∷ 45 ∷ 45 ∷ 45 ∷ 45 ∷ 45 ∷ 45 ∷ 45 ∷ 45 ∷ 45 ∷ 45 ∷ 45 ∷ 45 ∷ 45 ∷ 45 ∷ 45
    ∷ 45 ∷ 45 ∷ 45 ∷ 45 ∷ 45 ∷ 10 ∷ []

-- "Aether Ready.\n"
abbrev pub ready_text : List ℕ
ready_text = 65 ∷ 101 ∷ 116 ∷ 104 ∷ 101 ∷ 114 ∷ 32 ∷ 82 ∷ 101 ∷ 97 ∷ 100 ∷ 121 ∷ 46 ∷ 10 ∷ []

-- "#########################################\n"
abbrev pub hash_text : List ℕ
hash_text =
    35 ∷ 35 ∷ 35 ∷ 35 ∷ 35 ∷ 35 ∷ 35 ∷ 35 ∷ 35 ∷ 35 ∷ 35 ∷ 35 ∷ 35 ∷ 35 ∷ 35 ∷ 35 ∷ 35 ∷ 35 ∷ 35
    ∷ 35 ∷ 35 ∷ 35 ∷ 35 ∷ 35 ∷ 35 ∷ 35 ∷ 35 ∷ 35 ∷ 35 ∷ 35 ∷ 35 ∷ 35 ∷ 35 ∷ 35 ∷ 35 ∷ 35 ∷ 35 ∷ 35
    ∷ 35 ∷ 35 ∷ 35 ∷ 10 ∷ []

-- "#       CONFIRM SYSTEM SHUTDOWN?        #\n"
abbrev pub confirm_text : List ℕ
confirm_text =
    35 ∷ 32 ∷ 32 ∷ 32 ∷ 32 ∷ 32 ∷ 32 ∷ 32 ∷ 67 ∷ 79 ∷ 78 ∷ 70 ∷ 73 ∷ 82 ∷ 77 ∷ 32 ∷ 83 ∷ 89 ∷ 83
    ∷ 84 ∷ 69 ∷ 77 ∷ 32 ∷ 83 ∷ 72 ∷ 85 ∷ 84 ∷ 68 ∷ 79 ∷ 87 ∷ 78 ∷ 63 ∷ 32 ∷ 32 ∷ 32 ∷ 32 ∷ 32 ∷ 32
    ∷ 32 ∷ 32 ∷ 35 ∷ 10 ∷ []

-- "#    [ENTER] Confirm | [ESC] Cancel     #\n"
abbrev pub choice_text : List ℕ
choice_text =
    35 ∷ 32 ∷ 32 ∷ 32 ∷ 32 ∷ 91 ∷ 69 ∷ 78 ∷ 84 ∷ 69 ∷ 82 ∷ 93 ∷ 32 ∷ 67 ∷ 111 ∷ 110 ∷ 102 ∷ 105
    ∷ 114 ∷ 109 ∷ 32 ∷ 124 ∷ 32 ∷ 91 ∷ 69 ∷ 83 ∷ 67 ∷ 93 ∷ 32 ∷ 67 ∷ 97 ∷ 110 ∷ 99 ∷ 101 ∷ 108 ∷ 32
    ∷ 32 ∷ 32 ∷ 32 ∷ 32 ∷ 35 ∷ 10 ∷ []
